-- ===== src/Tests.antt =====
-- The properties at concrete inputs. Fixtures has a small JSON value type and an operating system
-- that knows a few addresses, which stand for the libraries that the model leaves open.
mod Fixtures
mod Examples
mod Services
mod Connections
mod RcFiles
mod Commands
mod Listing
mod Sockets
mod Interfaces
