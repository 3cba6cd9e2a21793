-- ===== src/Go.antt =====
-- What the source uses of Go's packages strings, bytes, net/url and strconv, over the bytes of a
-- string. ToLower and ToUpper are exact where their results are compared with ASCII text, which is
-- all that the source does with them: the four runes beyond ASCII that map into ASCII are mapped,
-- and all others stay beyond it.
pub mod Strings
pub mod Url
pub mod Number
