-- ===== src/Tests/Kernel.antt =====
-- An epoll instance as the function from fds to event masks, with the errors EEXIST and ENOENT of
-- `epoll_ctl`.
use asynchronous_http_web_se.Base.{
  ℕ, refl, Option, none, some, arith, ℤ, pos, int_key, ◌=?◌, if◌then◌else◌,
}
use asynchronous_http_web_se.Epoll.{Epoll, EpollLaws, EpollEvent, write_mask}
use asynchronous_http_web_se.Reactor.{Tracker, new_reactor, add_track, new_sock}
use asynchronous_http_web_se.Reactor.Tracking.{
  IsTracked, new_reactor-IsTracked, add_track-IsTracked,
}

abbrev pub Watched : Type 0
Watched = ℤ → Option ℕ

unfoldable pub watch : Watched → EpollEvent → Watched
watch s ev j = if ev.fd =? j then some ev.events else s j

unfoldable pub unwatch : Watched → ℤ → Watched
unwatch s fd j = if fd =? j then none else s j

abbrev pub kernel : Epoll Watched
kernel = record {
  ctl_add = λ s ev. elim (s ev.fd) [ none ↦ some (watch s ev) | some _ ↦ none ];
  ctl_mod = λ s ev. elim (s ev.fd) [ none ↦ none | some _ ↦ some (watch s ev) ];
  ctl_del = λ s fd. elim (s fd) [ none ↦ none | some _ ↦ some (unwatch s fd) ];
  interest = λ s fd. s fd;
}

pub kernel_laws : EpollLaws kernel
unfolding watch unwatch
kernel_laws = record {
  add_some = λ s t ev j e. ground arith;
  mod_some = λ s t ev j e. ground arith;
  mod_present = λ s t ev e. ground arith;
  del_some = λ s t fd j e. ground arith;
  del_none = λ s fd e. ground arith;
}

abbrev pub socket5 : ℤ
socket5 = pos 5

-- A reactor, with callbacks that are numbers, that watches one socket.
unfoldable pub watching : Tracker Watched ℕ
unfolding add_track new_reactor
watching = (add_track kernel (new_reactor (λ _. none)).tracker socket5 write_mask new_sock 7).0

pub watching-IsTracked : IsTracked kernel watching
unfolding watching
watching-IsTracked =
    add_track-IsTracked kernel kernel_laws (new_reactor (λ _. none)).tracker socket5 write_mask
      new_sock 7 (new_reactor-IsTracked kernel (λ _. none) (λ j. refl))
