-- ===== src/Websocket/Routes.antt =====
-- The WebSocket endpoint (websocket/routes.py): its parts are the handshake and the message loop.
pub mod Handshake
pub mod MessageLoop
