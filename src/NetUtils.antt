-- ===== src/NetUtils.antt =====
-- libs/net-utils: what the applications use of boost::asio, with some logic of its own.
pub mod IoContextPool
pub mod SocketAcceptor
pub mod Json
pub mod HttpSession
