-- ===== src/Rpc/Frame.antt =====
-- sidecar/ibreeze/rpc/frame.py. Bytes are numbers below 256; a reader is what its stream still delivers
-- before it ends. `dumps` and `loads` are those of json, `encode` and `decode` are UTF-8, `as_object` says
-- whether a value is a dict and `type_name` is the name of its type.
pub mod RoundTrip
pub mod Prefix
mod Tests
use i_breeze.Prelude.{
  ℕ, zero, suc, ◌+◌, ◌*◌, ◌/◌, ◌%◌, ◌==◌, ltb, String, Option, none, some, List, [], ◌∷◌, ◌++◌,
  length, if◌then◌else◌,
}
use i_breeze.Result.{Result, ok, err, ◌>>=◌}

-- MAX_FRAME_BYTES
abbrev pub max_frame_bytes : ℕ
max_frame_bytes = 16777216

-- The exceptions, with what their messages show; `json_decode` is the one of json.
pub data FrameError : Type 0 where
  frame_error : String → FrameError
  invalid_length : FrameError
  too_large : ℕ → FrameError
  not_an_object : String → FrameError
  connection_closed : String → FrameError
  json_decode : String → FrameError

-- `struct.pack(">I", length)` and `struct.unpack`
abbrev pub pack : ℕ → List ℕ
pack n = (n / 256 / 256 / 256 % 256) ∷ (n / 256 / 256 % 256) ∷ (n / 256 % 256) ∷ (n % 256) ∷ []

abbrev pub unpack : List ℕ → ℕ
unpack (a ∷ b ∷ c ∷ d ∷ []) = ((a * 256 + b) * 256 + c) * 256 + d
unpack _ = 0

-- `readexactly`: the bytes and the rest, if that many come.
unfoldable pub read_exactly : ℕ → List ℕ → Option (List ℕ × List ℕ)
read_exactly zero reader = some ([], reader)
read_exactly (suc n) [] = none
read_exactly (suc n) (b ∷ reader) = elim (read_exactly n reader) [
  | none ↦ none
  | some (bytes, rest) ↦ some (b ∷ bytes, rest)
]

abbrev pub or_closed : String → Option (List ℕ × List ℕ) → Result FrameError (List ℕ × List ℕ)
or_closed part none = err (connection_closed part)
or_closed part (some r) = ok r

-- The two tests of a length.
unfoldable pub check_length : ℕ → Result FrameError (Unit {0})
check_length n =
    if n == 0
    then err invalid_length
    else if ltb max_frame_bytes n
    then err (too_large n)
    else ok tt

module _ {J O : Type 0} (dumps : O → String) (loads : String → Result String J)
    (encode : String → List ℕ) (decode : List ℕ → Result String String) (as_object : J → Option O)
    (type_name : J → String) where
  unfoldable pub encode_frame : O → Result FrameError (List ℕ)
  unfolding check_length
  encode_frame obj = do
    fits ← check_length (length (encode (dumps obj)))
    ok (pack (length (encode (dumps obj))) ++ encode (dumps obj))

  -- What a whole body says.
  unfoldable pub parse_body : List ℕ → Result FrameError O
  parse_body body = elim (decode body) [
    | err e ↦ err (frame_error e)
    | ok text ↦ elim (loads text) [
      | err e ↦ err (json_decode e)
      | ok obj ↦ elim (as_object obj) [ none ↦ err (not_an_object (type_name obj)) | some o ↦ ok o ]
    ]
  ]

  -- `read_frame`, with what is left in the reader.
  unfoldable pub read_frame : List ℕ → Result FrameError (O × List ℕ)
  unfolding read_exactly check_length parse_body
  read_frame reader = do
    header ← or_closed "header" (read_exactly 4 reader)
    fits ← check_length (unpack header.0)
    body ← or_closed "body" (read_exactly (unpack header.0) header.1)
    obj ← parse_body body.0
    ok (obj, body.1)
