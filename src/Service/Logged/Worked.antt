-- ===== src/Service/Logged/Worked.antt =====
-- The worker of sanlight_mesh/gateway_service.py keeps the log justified.
use sanlight_mesh_mqtt_gatew.Service.Logged.{Logged}
use sanlight_mesh_mqtt_gatew.Service.Logged.Keeps.{Keeps}
