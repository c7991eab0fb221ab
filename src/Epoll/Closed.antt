-- ===== src/Epoll/Closed.antt =====
-- An internal connection that its peer has closed, in src/event_handlers/epoll.c.
use open_dsu.Os.{Os}
