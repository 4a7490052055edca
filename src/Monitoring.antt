-- ===== src/Monitoring.antt =====
-- app/services/monitoring/monitoring_service.py: alerts with the dashboard, and the usage that is read
-- of recorded metrics.
pub mod Alerts
pub mod Usage
