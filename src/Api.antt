-- ===== src/Api.antt =====
-- internal/api: the panel's web server, of which the login and the views of instances are modelled.
pub mod Auth
pub mod Instances
