-- ===== src/Client.antt =====
-- pkg/client: what runs beside the TACACS+ server.
pub mod LogHub
pub mod Tests
