-- ===== src/Daemon.antt =====
-- mgmtd: the client of the control socket (Client), the commands that it sends (Stats), and the routes
-- of its web server (Http).
pub mod Client
pub mod Stats
pub mod Cache
pub mod Http
