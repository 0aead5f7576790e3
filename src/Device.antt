-- ===== src/Device.antt =====
-- The table of devices and the drivers of the sensors.
pub mod Dht11
pub mod Table
