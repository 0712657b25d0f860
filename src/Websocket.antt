-- ===== src/Websocket.antt =====
-- The connection with the exam client: its messages, the buffer of them and the delivery of
-- acknowledgements (proctoring_engine/websocket/).
pub mod Messages
pub mod Routes
pub mod EventBuffer
pub mod Delivery
