-- ===== src/Greeting.antt =====
-- 02-networking-code/03_socket_programming: server.c greets each client with a message that names the
-- version of the protocol, and client.c reads it. Server and Client model the two, Exchange has what
-- they do together.
pub mod Server
pub mod Client
pub mod Exchange
