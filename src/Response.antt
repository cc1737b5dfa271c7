-- ===== src/Response.antt =====
-- The head of a response: `http_read_line`, `http_read_header`, `http_split_headers` and the first part
-- of `http_read_response` of netcwmp_xo/libcwmp/src/http.c, over Chunk and Header. What the socket gives is
-- a list of bytes, behind which a read returns 0, or an error where `eof` is false.
pub mod Read
pub mod Split
pub mod Check
pub mod Tests
use Prim.Native.String.{String}
use netcwmp_xo.Base.{
  ℕ, zero, suc, ◌-◌, Bool, true, false, ◌&&◌, ◌||◌, Option, none, some, List, [], ◌∷◌, ◌==◌, ltb,
  leb, if◌then◌else◌, length, codes,
}
use netcwmp_xo.Param.{Name, consed}
use netcwmp_xo.Chunk.{
  Chunk, chunk_clear, Written, wrote, no_buffer, out_of_fuel, write_string, copy,
}
use netcwmp_xo.Header.{Headers, max_headers, skip_spaces, set_variable, parse_headers, get_variable}

abbrev pub cr : ℕ
cr = 13

abbrev pub lf : ℕ
lf = 10

abbrev pub prefixed : ℕ → Option (Name × Name) → Option (Name × Name)
prefixed c none = none
prefixed c (some r) = some (consed c r)

-- The end of a line behind the CR, for `n` places left in the buffer; at the end of the input the
-- character stays the CR.
unfoldable pub behind_cr : Bool → ℕ → Name → Option (Name × Name)
behind_cr eof n [] = if eof && ltb 1 n then some (cr ∷ cr ∷ [], []) else none
behind_cr eof n (c ∷ s) = if ltb 1 n then some (cr ∷ c ∷ [], s) else none

-- The loop of `http_read_line`, for the places left: the line and what is left of the input
unfoldable pub read_line : Bool → ℕ → Name → Option (Name × Name)
read_line eof zero s = none
read_line eof (suc n) [] = none
read_line eof (suc n) (c ∷ s) =
    let rest = read_line eof n s in if c == cr then behind_cr eof n s else prefixed c rest

-- `buffer[0] == '\r' && buffer[1] == '\n'`
abbrev pub is_blank : Name → Bool
is_blank [] = false
is_blank (c ∷ []) = false
is_blank (c ∷ d ∷ s) = c == cr && d == lf

-- What `cwmp_chunk_create` makes
abbrev pub no_chunk : Chunk
no_chunk = record { before = []; current = none; after = []; bytes = 0 }

-- How the reading of a header ends: with the header and what is left of the input, with an error, or
-- at the end of the fuel.
pub data HeaderRead : Type 0 where
  header : Chunk → Name → HeaderRead
  failed : HeaderRead
  no_fuel : HeaderRead

-- The chunk behind `cwmp_chunk_write_string`, whose result is not looked at
abbrev pub chunk_of : Chunk → Written → Chunk
chunk_of c (wrote n d) = d
chunk_of c (no_buffer d) = d
chunk_of c out_of_fuel = c

-- The loop of `http_read_header`
unfoldable pub read_header : (Chunk → Bool) → Bool → ℕ → Name → Chunk → HeaderRead
read_header pool eof zero s c = no_fuel
read_header pool eof (suc fuel) s c = elim (read_line eof 1023 s) [
  | none ↦ failed
  | some r ↦ elim (is_blank r.0) [
    | true ↦ header (chunk_of c (write_string pool (length r.0) r.0 0 c)) r.1
    | false ↦ read_header pool eof fuel r.1 (chunk_of c (write_string pool (length r.0) r.0 0 c))
  ]
]

-- A line as a C string, once its CR and its LF are NUL
unfoldable pub line_text : Name → Name
line_text [] = []
line_text (c ∷ s) =
    let rest = line_text s in if c == 0 || (c == cr || c == lf) then [] else c ∷ rest

-- The test of the character behind an LF: whether there is another line
abbrev pub starts_line : Name → Bool
starts_line [] = false
starts_line (c ∷ s) = if c == lf || c == cr then false else true

-- The loop of `http_split_headers`, for the lines that are left and the start of the current one: the
-- lines that are counted
unfoldable pub split_lines : ℕ → Name → Name → List Name
split_lines left start [] = []
split_lines left start (c ∷ s) = elim (c == lf) [
  | true ↦
      line_text start
      ∷ (elim (starts_line s && ltb 1 left) [ true ↦ split_lines (left - 1) s s | false ↦ [] ])
  | false ↦ split_lines left start s
]

-- `http_split_headers`
unfoldable pub split_headers : Name → List Name
split_headers text = split_lines max_headers text text

-- The word behind the first one, with what follows it, and a word up to a space
unfoldable pub next_word : Name → Option Name
next_word [] = none
next_word (c ∷ s) = let rest = next_word s in if c == b' ' then skip_spaces s else rest

unfoldable pub word : Name → Name
word [] = []
word (c ∷ s) = let rest = word s in if c == b' ' then [] else c ∷ rest

-- The code and the message of a status line, if it has both
abbrev pub message_behind : Name → Option Name → Option (Name × Name)
message_behind code none = none
message_behind code (some message) = some (word code, message)

abbrev pub code_behind : Option Name → Option (Name × Name)
code_behind none = none
code_behind (some code) = message_behind code (next_word code)

unfoldable pub status_parts : Name → Option (Name × Name)
status_parts line = code_behind (next_word line)

-- How `http_read_response` goes on behind the headers: with the code, the variables of the parser, the
-- length of the body, and what is left of the input
pub data Head : Type 0 where
  head : ℕ → Headers → ℕ → Name → Head
  head_failed : Head
  head_no_fuel : Head

module _ (has_memory : Headers → Bool) (pstrdup_lower : Name → Name) (atoi : Name → ℕ) where
  abbrev pub set_var : String → Name → Headers → Headers
  set_var name value hs = set_variable has_memory pstrdup_lower (codes name) value hs

  abbrev pub with_message : Bool → Name → Headers → Headers
  with_message true message hs = hs
  with_message false message hs = set_var "__errormessage__" message hs

  abbrev pub length_of : Option Name → ℕ
  length_of none = 0
  length_of (some text) = atoi text

  -- The variables, for the code, the message and the lines
  unfoldable pub variables : Name → Name → List Name → Headers
  variables code message ls = parse_headers has_memory pstrdup_lower ls (
      set_var "__req_type__" (codes "NONE") (
        with_message (leb 200 (atoi code) && ltb (atoi code) 300) message
          (set_var "__errorcode__" code [])))

  abbrev pub head_of : List Name → Option (Name × Name) → Name → Head
  head_of ls none rest = head_failed
  head_of ls (some (code, message)) rest =
      head (atoi code) (variables code message ls)
        (length_of (get_variable (variables code message ls) (codes "Content-Length"))) rest

  abbrev pub head_behind : HeaderRead → Head
  head_behind (header c rest) =
      head_of (split_headers (copy c (c.bytes))) (status_parts (line_text (copy c (c.bytes)))) rest
  head_behind failed = head_failed
  head_behind no_fuel = head_no_fuel

  -- The part of `http_read_response` before it reads the body, with a fresh chunk and a fresh parser
  unfoldable pub read_head : (Chunk → Bool) → Bool → ℕ → Name → Head
  read_head pool eof fuel s = head_behind (read_header pool eof fuel s no_chunk)
