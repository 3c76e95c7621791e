-- ===== src/Text.antt =====
-- Text on the wire and in memory: include/windows_1251.hpp, include/windows_1252.hpp and
-- include/string_utils.hpp. A `std::string` is the list of its bytes.
pub mod Utf8
pub mod CodePage
pub mod Windows1251
pub mod Windows1252
pub mod StringUtils
