-- ===== src/Text/Utf8/RoundTrip.antt =====
-- The two UTF-8 helpers of include/windows_1252.hpp one after the other.
use worms2lobby_server_cpp.Base.{ℕ, ◌<◌, ◌≡◌, List, [], ◌++◌, length}
use worms2lobby_server_cpp.Text.Utf8.{utf8_to_codepoint, append_utf8}
use worms2lobby_server_cpp.Text.Utf8.Standard.{read_char, utf8_helpers_standard}

-- Every code point of 16 bits that is written as UTF-8 is read back, whatever follows it, and
-- nothing of what follows is read.
pub utf8_to_codepoint-append_utf8 :
    (cp : ℕ) (rest : List ℕ)
    → cp < 0x10000
    → utf8_to_codepoint (append_utf8 [] cp ++ rest) ≡ (length (append_utf8 [] cp), cp)
utf8_to_codepoint-append_utf8 cp rest b =
    rw ((read_char cp b).2) ((utf8_helpers_standard cp b [] rest).1)
