-- ===== src/Tests.antt =====
-- Concrete instances of what the connections and the reactor take as parameters, and the theorems
-- applied to them.
pub mod Kernel
pub mod LineParser
pub mod ReactorTests
pub mod ClientTests
pub mod ApiTests
pub mod DbTests
pub mod PoolerTests
pub mod RegistryTests
pub mod SocketTests
pub mod ServerTests
pub mod WriteTests
pub mod MapTests
pub mod PrintingTests
pub mod BooksTests
pub mod FetchTests
pub mod RowsTests
pub mod SharingTests
pub mod ThreadTests
pub mod VisitTests
