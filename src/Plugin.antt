-- ===== src/Plugin.antt =====
-- A plugin's side of the protocol in pkg/aiiosdk: what it does with requests (plugin.go, serve.go,
-- marshal.go), what the caller makes of an answer (hostcall.go), and the window of its sends
-- (sendwindow.go).
pub mod Responses
pub mod Dispatch
pub mod Reply
pub mod Serve
pub mod SendWindow
pub mod Marshal
mod Tests
