-- ===== src/Rpc/Frame/Tests.antt =====
-- Runs of sidecar/ibreeze/rpc/frame.py, and instances of its theorems. A dict is a text here, which json
-- writes in braces.
use i_breeze.Prelude.{
  ℕ, ◌==◌, String, str_eq, Option, none, some, List, [], ◌∷◌, ◌++◌, ◌≡◌, refl, if◌then◌else◌, arith,
}
use i_breeze.Result.{Result, ok, err}
use i_breeze.Rpc.Frame.{
  encode_frame, read_frame, FrameError, invalid_length, too_large, not_an_object, frame_error,
  read_exactly, check_length, parse_body,
}
use i_breeze.Rpc.Frame.RoundTrip.{ReadsBack, encode_each, read_each, read_each-encode_each}
use i_breeze.Rpc.Frame.Prefix.{Closed, read_frame-prefix}

data Dict : Type 0 where
  empty : Dict
  ping : Dict

-- The texts {} and {"a":1}, and the text 7, which is no dict.
abbrev dumps : Dict → String
dumps empty = "{}"
dumps ping = "{\"a\":1}"

abbrev loads : String → Result String (Option Dict)
loads s =
    if str_eq s "{}"
    then ok (some empty)
    else if str_eq s "{\"a\":1}"
    then ok (some ping)
    else if str_eq s "7"
    then ok none
    else err "Expecting value"

abbrev encode : String → List ℕ
encode s = if str_eq s "{}" then 123 ∷ 125 ∷ [] else 123 ∷ 34 ∷ 97 ∷ 34 ∷ 58 ∷ 49 ∷ 125 ∷ []

abbrev decode : List ℕ → Result String String
decode [] = err "no byte"
decode (a ∷ []) = if a == 55 then ok "7" else err "invalid start byte"
decode (a ∷ b ∷ []) = ok "{}"
decode (a ∷ b ∷ c ∷ bytes) = ok "{\"a\":1}"

abbrev as_object : Option Dict → Option Dict
as_object o = o

abbrev type_name : Option Dict → String
type_name o = "int"

abbrev reads : List ℕ → Result FrameError (Dict × List ℕ)
reads reader = read_frame dumps loads encode decode as_object type_name reader

reads_run :
    (reads (0 ∷ 0 ∷ 0 ∷ 2 ∷ 123 ∷ 125 ∷ 9 ∷ []) ≡ ok (empty, 9 ∷ []))
    × (reads (0 ∷ 0 ∷ 0 ∷ 0 ∷ []) ≡ err invalid_length)
    × (reads (1 ∷ 0 ∷ 0 ∷ 1 ∷ []) ≡ err (too_large 16777217))
    × (reads (0 ∷ 0 ∷ 0 ∷ 1 ∷ 55 ∷ []) ≡ err (not_an_object "int"))
    × (reads (0 ∷ 0 ∷ 0 ∷ 1 ∷ 128 ∷ []) ≡ err (frame_error "invalid start byte"))
unfolding read_frame read_exactly check_length parse_body
reads_run = (refl, refl, refl, refl, refl)

reads_back : (o : Dict) → ReadsBack dumps loads encode decode as_object type_name o
reads_back empty = (refl, some empty, refl, refl)
reads_back ping = (refl, some ping, refl, refl)

abbrev two_frames : List ℕ
two_frames = 0 ∷ 0 ∷ 0 ∷ 2 ∷ 123 ∷ 125 ∷ 0 ∷ 0 ∷ 0 ∷ 7 ∷ 123 ∷ 34 ∷ 97 ∷ 34 ∷ 58 ∷ 49 ∷ 125 ∷ []

encode_each_run :
    encode_each dumps loads encode decode as_object type_name (empty ∷ ping ∷ []) ≡ ok two_frames
unfolding encode_each encode_frame check_length
encode_each_run = refl

encode_frame_run :
    encode_frame dumps loads encode decode as_object type_name empty
    ≡ ok (0 ∷ 0 ∷ 0 ∷ 2 ∷ 123 ∷ 125 ∷ [])
unfolding encode_frame check_length
encode_frame_run = refl

read_each-encode_each_example :
    read_each dumps loads encode decode as_object type_name 2 (two_frames ++ (0 ∷ 0 ∷ []))
    ≡ ok (empty ∷ ping ∷ [], 0 ∷ 0 ∷ [])
read_each-encode_each_example =
    read_each-encode_each dumps loads encode decode as_object type_name (empty ∷ ping ∷ [])
      two_frames (0 ∷ 0 ∷ []) (λ o i. reads_back o) encode_each_run

read_frame-prefix_example :
    Closed dumps loads encode decode as_object type_name (0 ∷ 0 ∷ 0 ∷ 2 ∷ 123 ∷ [])
read_frame-prefix_example =
    read_frame-prefix dumps loads encode decode as_object type_name empty
      (0 ∷ 0 ∷ 0 ∷ 2 ∷ 123 ∷ 125 ∷ []) (0 ∷ 0 ∷ 0 ∷ 2 ∷ 123 ∷ []) (125 ∷ []) encode_frame_run refl
      (λ h. ground arith)
