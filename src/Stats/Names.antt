-- ===== src/Stats/Names.antt =====
-- The names of messages and encodings in libvncserver/stats.c, with the numbers of rfb/rfbproto.h.
use Prim.Native.String.{String}
use text.Mathlib.Text.{◌==◌ as str_eq}
use text.Mathlib.TextEquality.{eq_iff}
use libvncserver.Base.{
  ℕ, Bool, true, not, ◌&&◌, List, [], ◌∷◌, ◌≡◌, refl, arith, ◌==◌, if◌then◌else◌, Option, none,
  some,
}

-- A `switch` over the type: the format with no argument that `snprintf` is given for it, and none for
-- the `default`, which formats a number.
unfoldable pub name_of : List (ℕ × String) → ℕ → Option String
name_of [] kind = none
name_of ((k, name) ∷ table) kind = if k == kind then some name else name_of table kind

abbrev pub server_table : List (ℕ × String)
server_table =
    (0, "FramebufferUpdate")
    ∷ (1, "SetColourMapEntries")
    ∷ (2, "Bell")
    ∷ (3, "ServerCutText")
    ∷ (4, "ResizeFrameBuffer")
    ∷ (7, "FileTransfer")
    ∷ (11, "TextChat")
    ∷ (0xF, "PalmVNCReSize")
    ∷ (250, "XvpServerMessage")
    ∷ []

abbrev pub client_table : List (ℕ × String)
client_table =
    (0, "SetPixelFormat")
    ∷ (1, "FixColourMapEntries")
    ∷ (2, "SetEncodings")
    ∷ (3, "FramebufferUpdate")
    ∷ (4, "KeyEvent")
    ∷ (5, "PointerEvent")
    ∷ (6, "ClientCutText")
    ∷ (7, "FileTransfer")
    ∷ (8, "SetScale")
    ∷ (9, "SetServerInput")
    ∷ (10, "SetSingleWindow")
    ∷ (11, "TextChat")
    ∷ (0xF, "PalmVNCSetScale")
    ∷ (250, "XvpClientMessage")
    ∷ (251, "SetDesktopSize")
    ∷ []

abbrev pub encoding_table : List (ℕ × String)
encoding_table =
    (0, "raw")
    ∷ (1, "copyRect")
    ∷ (2, "RRE")
    ∷ (4, "CoRRE")
    ∷ (5, "hextile")
    ∷ (6, "zlib")
    ∷ (7, "tight")
    ∷ (0xFFFFFEFC, "tightPng")
    ∷ (8, "zlibhex")
    ∷ (9, "ultra")
    ∷ (16, "ZRLE")
    ∷ (17, "ZYWRLE")
    ∷ (0xFFFF0000, "cache")
    ∷ (0xFFFF0001, "cacheEnable")
    ∷ (0xFFFF0002, "xorZlib")
    ∷ (0xFFFF0003, "xorMonoZlib")
    ∷ (0xFFFF0004, "xorColorZlib")
    ∷ (0xFFFF0005, "solidColor")
    ∷ (0xFFFF0006, "xorEnable")
    ∷ (0xFFFF0007, "cacheZip")
    ∷ (0xFFFF0008, "monoZip")
    ∷ (0xFFFF0009, "ultraZip")
    ∷ (0xFFFFFF10, "Xcursor")
    ∷ (0xFFFFFF11, "RichCursor")
    ∷ (0xFFFFFF18, "PointerPos")
    ∷ (0xFFFFFF20, "LastRect")
    ∷ (0xFFFFFF21, "NewFBSize")
    ∷ (0xFFFFFECC, "ExtendedDesktopSize")
    ∷ (0xFFFE0000, "LedState")
    ∷ (0xFFFE0001, "SupportedMessage")
    ∷ (0xFFFE0002, "SupportedEncoding")
    ∷ (0xFFFE0003, "ServerIdentify")
    ∷ (0xFFFFFF00, "CompressLevel0")
    ∷ (0xFFFFFF01, "CompressLevel1")
    ∷ (0xFFFFFF02, "CompressLevel2")
    ∷ (0xFFFFFF03, "CompressLevel3")
    ∷ (0xFFFFFF04, "CompressLevel4")
    ∷ (0xFFFFFF05, "CompressLevel5")
    ∷ (0xFFFFFF06, "CompressLevel6")
    ∷ (0xFFFFFF07, "CompressLevel7")
    ∷ (0xFFFFFF08, "CompressLevel8")
    ∷ (0xFFFFFF09, "CompressLevel9")
    ∷ (0xFFFFFFE0, "QualityLevel0")
    ∷ (0xFFFFFFE1, "QualityLevel1")
    ∷ (0xFFFFFFE2, "QualityLevel2")
    ∷ (0xFFFFFFE3, "QualityLevel3")
    ∷ (0xFFFFFFE4, "QualityLevel4")
    ∷ (0xFFFFFFE5, "QualityLevel5")
    ∷ (0xFFFFFFE6, "QualityLevel6")
    ∷ (0xFFFFFFE7, "QualityLevel7")
    ∷ (0xFFFFFFE8, "QualityLevel8")
    ∷ (0xFFFFFFE9, "QualityLevel9")
    ∷ []

-- `messageNameServer2Client`, `messageNameClient2Server` and `encodingName`, where `buf` is not NULL.
unfoldable pub server_message_name : ℕ → Option String
unfolding name_of
server_message_name kind = name_of server_table kind

unfoldable pub client_message_name : ℕ → Option String
unfolding name_of
client_message_name kind = name_of client_table kind

unfoldable pub encoding_name : ℕ → Option String
unfolding name_of
encoding_name kind = name_of encoding_table kind

-- No row has the name.
fresh_name : String → List (ℕ × String) → Bool
fresh_name name [] = true
fresh_name name ((k, n) ∷ table) = not (str_eq n name) && fresh_name name table

distinct_names : List (ℕ × String) → Bool
distinct_names [] = true
distinct_names ((k, n) ∷ table) = fresh_name n table && distinct_names table

fresh_name-name_of :
    (name : String) (table : List (ℕ × String)) (kind : ℕ)
    → fresh_name name table ≡ true
    → name_of table kind ≡ some name
    → ⊥
unfolding fresh_name name_of
fresh_name-name_of name [] kind f h = cc
fresh_name-name_of name ((k, n) ∷ table) kind f h =
    ground (arith, eq_iff n name, fresh_name-name_of name table kind)

name_of_injective :
    (table : List (ℕ × String)) (a b : ℕ) (name : String)
    → distinct_names table ≡ true
    → name_of table a ≡ some name
    → name_of table b ≡ some name
    → a ≡ b
unfolding distinct_names name_of
name_of_injective [] a b name d h k = cc
name_of_injective ((i, n) ∷ table) a b name d h k = ground (
  arith,
  fresh_name-name_of name table a,
  fresh_name-name_of name table b,
  name_of_injective table a b name,
)

encoding_table_distinct : distinct_names encoding_table ≡ true
unfolding distinct_names fresh_name
encoding_table_distinct = refl

-- Two encodings that `encodingName` has a name for have different names.
pub encoding_name_injective :
    (a b : ℕ) (name : String) → encoding_name a ≡ some name → encoding_name b ≡ some name → a ≡ b
unfolding encoding_name
encoding_name_injective a b name h k =
    name_of_injective encoding_table a b name encoding_table_distinct h k
