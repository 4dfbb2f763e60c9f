-- ===== src/Profiles.antt =====
-- interfaces/python/src/openrois/interfaces: the enumerations and the structures that the engine
-- handles (common.py, hri.py, profiles.py, service.py).
pub mod Status
pub mod Units
