-- ===== src/Log/Pattern.antt =====
-- `LogFormatter` of sylar/log.h and sylar/log.cpp: the pattern is read into items.
use prozac.Prelude.{
  ℕ, zero, suc, Bool, true, false, not, ◌&&◌, ◌||◌, Option, none, some, List, [], ◌∷◌, ◌++◌, leb,
  ◌==◌, if◌then◌else◌, length, codes, same,
}

-- `isalpha` in the C locale.
abbrev pub is_alpha : ℕ → Bool
is_alpha c = (leb b'A' c && leb c b'Z') || (leb b'a' c && leb c b'z')

-- A tuple of `vec`.
pub record Token : Type 0 where
  pub str : List ℕ
  pub fmt : List ℕ
  pub type : ℕ

abbrev pub text_token : List ℕ → Token
text_token s = record { str = s; fmt = []; type = 0 }

abbrev pub item_token : List ℕ → List ℕ → Token
item_token s f = record { str = s; fmt = f; type = 1 }

-- Where the inner loop stops: what was read, and the pattern from there; or the end of the pattern
-- inside braces.
pub data Stop : Type 0 where
  ended : List ℕ → List ℕ → List ℕ → Stop
  open_brace : Stop

-- The inner loop with `fmt_status` 1: `fmt` has been read of the format of `str`.
unfoldable pub read_fmt : List ℕ → List ℕ → List ℕ → Stop
read_fmt str fmt [] = open_brace
read_fmt str fmt (c ∷ cs) = if c == b'}' then ended str fmt cs else read_fmt str (fmt ++ c ∷ []) cs

-- The inner loop with `fmt_status` 0: `str` has been read.
unfoldable pub read_str : List ℕ → List ℕ → Stop
unfolding read_fmt
read_str str [] = ended str [] []
read_str str (c ∷ cs) =
    if not (is_alpha c) && (not (c == b'{') && not (c == b'}'))
    then ended str [] (c ∷ cs)
    else (if c == b'{' then read_fmt str [] cs else read_str (str ++ c ∷ []) cs)

-- `if(!nstr.empty()) vec.push_back(nstr)`
abbrev pub flush : List ℕ → List Token
flush [] = []
flush (c ∷ cs) = text_token (c ∷ cs) ∷ []

abbrev pub starts_percent : List ℕ → Bool
starts_percent [] = false
starts_percent (c ∷ cs) = c == b'%'

abbrev pub Scanned : Type 0
Scanned = Option (List Token × Bool)

-- The rest of the tokens after an item, and after an error.
abbrev pub then_item : List ℕ → List ℕ → List ℕ → Scanned → Scanned
then_item nstr str fmt none = none
then_item nstr str fmt (some (ts, e)) = some (flush nstr ++ item_token str fmt ∷ ts, e)

abbrev pub then_error : Scanned → Scanned
then_error none = none
then_error (some (ts, e)) = some (text_token (codes "<<pattern_error>>") ∷ ts, true)

-- The outer loop on the rest of the pattern; `nstr` is the text that waits to be flushed. On fuel:
-- each round takes one byte or more.
unfoldable pub scan : ℕ → List ℕ → List ℕ → Scanned
unfolding read_str
scan n nstr [] = some (flush nstr, false)
scan zero nstr (c ∷ cs) = none
scan (suc n) nstr (c ∷ cs) = elim (c == b'%') [
  | false ↦ scan n (nstr ++ c ∷ []) cs
  | true ↦ elim (starts_percent cs) [
    | true ↦ scan n (nstr ++ b'%' ∷ []) cs
    | false ↦ elim (read_str [] cs) [
      | ended str fmt rest ↦ then_item nstr str fmt (scan n [] rest)
      | open_brace ↦ then_error (scan n nstr cs)
    ]
  ]
]

-- The items, by the class that is registered for each letter, and StringFormatItem.
pub data Item : Type 0 where
  message level elapse name thread_id fiber_id thread_name filename line new_line tab : Item
  date_time : List ℕ → Item
  string : List ℕ → Item

-- `Factory::CreateObj<FormatItem>` with the registered classes; DateTimeFormatItem has a default
-- format.
unfoldable pub create : List ℕ → List ℕ → Option Item
create str fmt =
    if same str (codes "m")
    then some message
    else (if same str (codes "p")
        then some level
        else (if same str (codes "r")
            then some elapse
            else (if same str (codes "c")
                then some name
                else (if same str (codes "t")
                    then some thread_id
                    else (if same str (codes "F")
                        then some fiber_id
                        else (if same str (codes "N")
                            then some thread_name
                            else (if same str (codes "d")
                                then some (
                                    date_time
                                      (if same fmt [] then codes "%Y-%m-%d %H:%M:%S" else fmt))
                                else (if same str (codes "f")
                                    then some filename
                                    else (if same str (codes "l")
                                        then some line
                                        else (if same str (codes "n")
                                            then some new_line
                                            else (if same str (codes "T")
                                                then some tab
                                                else none)))))))))))

-- The last loop of `LogFormatter::init`.
unfoldable pub item_of : Token → Item × Bool
unfolding create
item_of t =
    let made = elim (create t.str t.fmt) as (λ _. Item × Bool) [
      | some i ↦ (i, false)
      | none ↦ (string (codes "<<error_format %" ++ t.str ++ codes ">>"), true)
    ] in
    if t.type == 0 then (string t.str, false) else made

unfoldable pub items_of : List Token → List Item × Bool
unfolding item_of
items_of [] = ([], false)
items_of (t ∷ ts) = let (i, e) = item_of t in let (is, f) = items_of ts in (i ∷ is, e || f)

pub record LogFormatter : Type 0 where
  pub pattern : List ℕ
  pub items : List Item
  pub is_error : Bool

abbrev pub formatter_of : List ℕ → Scanned → Option LogFormatter
formatter_of pattern none = none
formatter_of pattern (some (ts, e)) =
    some (record { pattern = pattern; items = (items_of ts).0; is_error = e || (items_of ts).1 })

-- `LogFormatter::LogFormatter` with `init`.
unfoldable pub new_formatter : List ℕ → Option LogFormatter
unfolding scan
new_formatter pattern = formatter_of pattern (scan (length pattern) [] pattern)
