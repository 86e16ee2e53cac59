-- ===== src/Delivery.antt =====
-- app/application/services/delivery_service.py and temp_link_service.py.
pub mod Format
pub mod Upload
pub mod Service
pub mod Frame
pub mod Retries
