-- ===== src/Utils.antt =====
-- app/domain/text_utils.py, app/utils/url.py and `parse_rl_window` of app/config.py.
pub mod Texts
pub mod Trimmed
pub mod Urls
pub mod Routing
pub mod Hosts
