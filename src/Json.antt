-- ===== src/Json.antt =====
-- The JSON writer of the command line (cli/json.h). Strings and RoundTrip stand for json_string; Writer and
-- Records for struct Json and the records that are printed; Lists for json_read_list.
pub mod Strings
pub mod Reader
pub mod RoundTrip
pub mod Writer
pub mod Records
pub mod Shapes
pub mod Objects
pub mod Lists
mod Tests
