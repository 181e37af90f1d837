-- ===== src/Regex/Syntax.antt =====
-- The syntax of JavaScript's regular expressions: a pattern's text is read symbol by symbol.
use grouvi_nox.Prelude.{
  Bool, List, Option, String, [], codes, eqb, false, if◌then◌else◌, is_digit, leb, none, not,
  reverse, some, suc, true, zero, ℕ, ◌&&◌, ◌*◌, ◌+◌, ◌-◌, ◌||◌, ◌∷◌,
}
use grouvi_nox.Regex.{Regex, empty, set, seq, alt, star, first, last, edge, unless, is_word}

-- A code unit of the pattern, or one behind a backslash.
pub data Symbol : Type 0 where
  raw esc : ℕ → Symbol

symbols : List ℕ → List Symbol
symbols [] = []
symbols (c ∷ []) = raw c ∷ []
symbols (c ∷ d ∷ s) = elim (eqb c b'\\') [
  | true ↦ esc d ∷ symbols s
  | false ↦ raw c ∷ symbols (d ∷ s)
]

-- What stands in a class `[…]`.
pub data Item : Type 0 where
  unit : ℕ → Item
  kind : (ℕ → Bool) → Item
  dash : Item

-- What the last symbols have begun.
pub data Mode : Type 0 where
  usual opened opened_q opened_set : Mode
  repeated : ℕ → Option ℕ → Regex → Mode  -- behind a quantifier of the last item
  counting : ℕ → Mode  -- {m
  counting_to : ℕ → Option ℕ → Mode  -- {m,n
  in_set : Bool → List Item → Mode  -- negated; the last item first

-- A group that is open: what stands before its last bar, and behind it, the last item first.
pub record Frame : Type 0 where
  negated : Bool
  before : Option Regex
  items : List Regex

pub record Parser : Type 0 where
  mode : Mode
  top : Frame
  outer : List Frame

pub data Op : Type 0 where
  open_group close_group bar any_number one_or_more maybe open_count close_count open_set
        close_set :
      Op
  at_start at_end any_unit comma colon bang minus : Op
  plain : Op

op_table : List (ℕ × Op)
op_table =
    (b'(', open_group)
    ∷ (b')', close_group)
    ∷ (b'|', bar)
    ∷ (b'*', any_number)
    ∷ (b'+', one_or_more)
    ∷ (b'?', maybe)
    ∷ (b'{', open_count)
    ∷ (b'}', close_count)
    ∷ (b'[', open_set)
    ∷ (b']', close_set)
    ∷ (b'^', at_start)
    ∷ (b'$', at_end)
    ∷ (b'.', any_unit)
    ∷ (b',', comma)
    ∷ (b':', colon)
    ∷ (b'!', bang)
    ∷ (b'-', minus)
    ∷ []

op_in : List (ℕ × Op) → ℕ → Op
op_in [] c = plain
op_in ((d, o) ∷ rest) c = elim (eqb d c) [ true ↦ o | false ↦ op_in rest c ]

-- \s, which is also what `trim` removes
unfoldable pub is_space : ℕ → Bool
is_space c =
    (leb 9 c && leb c 13)
    || eqb c 32
    || eqb c 160
    || eqb c 5760
    || (leb 8192 c && leb c 8202)
    || eqb c 8232
    || eqb c 8233
    || eqb c 8239
    || eqb c 8287
    || eqb c 12288
    || eqb c 65279

is_line_end : ℕ → Bool
is_line_end c = eqb c 10 || eqb c 13 || eqb c 8232 || eqb c 8233

-- The set of a backslash and a letter.
escaped : ℕ → ℕ → Bool
unfolding is_space
escaped e c =
    if eqb e b'd'
    then is_digit c
    else if eqb e b'w'
    then is_word c
    else if eqb e b's'
    then is_space c
    else if eqb e b'S'
    then not (is_space c)
    else if eqb e b'n'
    then eqb c 10
    else if eqb e b'r'
    then eqb c 13
    else if eqb e b't'
    then eqb c 9
    else eqb c e

-- A class's own set; the items are in their order.
members : List Item → ℕ → Bool
members [] c = false
members (unit a ∷ dash ∷ unit b ∷ rest) c = (leb a c && leb c b) || members rest c
members (unit a ∷ rest) c = eqb a c || members rest c
members (kind f ∷ rest) c = f c || members rest c
members (dash ∷ rest) c = eqb c b'-' || members rest c

class : Bool → List Item → Regex
unfolding members
class true items = set (λ c. not (members items c))
class false items = set (members items)

in_order : List Regex → Regex → Regex
in_order [] r = r
in_order (x ∷ xs) r = in_order xs (seq x r)

-- The group that a frame stands for, once it is over.
group : Frame → Regex
unfolding in_order
group f =
    let body = in_order f.items empty in
    let whole : Regex = elim f.before [ none ↦ body | some r ↦ alt r body ] in
    if f.negated then unless whole else whole

at_most : ℕ → Bool → Regex → Regex
at_most zero greedy r = empty
at_most (suc n) true r = alt (seq r (at_most n true r)) empty
at_most (suc n) false r = alt empty (seq r (at_most n false r))

-- r{m,n}; without n, r{m,}
between : ℕ → Option ℕ → Bool → Regex → Regex
unfolding at_most
between zero none greedy r = star greedy r
between zero (some n) greedy r = at_most n greedy r
between (suc m) none greedy r = seq r (between m none greedy r)
between (suc m) (some n) greedy r = seq r (between m (some (n - 1)) greedy r)

push : Regex → Parser → Parser
push r p = record p { mode = usual; top = record p.top { items = r ∷ p.top.items } }

-- The last item, repeated.
quantify : ℕ → Option ℕ → Parser → Parser
unfolding between
quantify m n p = elim p.top.items [
  | [] ↦ p
  | x ∷ xs ↦ record p {
    mode = repeated m n x;
    top = record p.top { items = between m n true x ∷ xs };
  }
]

-- A `?` behind a quantifier makes it lazy.
make_lazy : ℕ → Option ℕ → Regex → Parser → Parser
unfolding between
make_lazy m n x p = elim p.top.items [
  | [] ↦ p
  | y ∷ xs ↦ record p { mode = usual; top = record p.top { items = between m n false x ∷ xs } }
]

new_frame : Frame
new_frame = record { negated = false; before = none; items = [] }

close_with : List Frame → Regex → Parser → Parser
close_with [] r p = p
close_with (f ∷ fs) r p = record {
  mode = usual;
  top = record f { items = r ∷ f.items };
  outer = fs;
}

-- A symbol of its own meaning, outside classes and counts.
usual_op : Op → ℕ → Parser → Parser
unfolding push quantify group close_with new_frame is_line_end
usual_op open_group c p = record { mode = opened; top = new_frame; outer = p.top ∷ p.outer }
usual_op close_group c p = close_with p.outer (group p.top) p
usual_op bar c p = record p {
  mode = usual;
  top = record p.top { before = some (group (record p.top { negated = false })); items = [] };
}
usual_op any_number c p = quantify 0 none p
usual_op one_or_more c p = quantify 1 none p
usual_op maybe c p = quantify 0 (some 1) p
usual_op open_count c p = record p { mode = counting 0 }
usual_op open_set c p = record p { mode = opened_set }
usual_op at_start c p = push first p
usual_op at_end c p = push last p
usual_op any_unit c p = push (set (λ d. not (is_line_end d))) p
usual_op _ c p = push (set (eqb c)) p

item_of : Op → ℕ → Item
item_of minus c = dash
item_of _ c = unit c

digit_on : ℕ → ℕ → ℕ
digit_on n c = 10 * n + (c - b'0')

step_raw : Mode → Op → ℕ → Parser → Parser
unfolding usual_op make_lazy class item_of digit_on
step_raw opened maybe c p = record p { mode = opened_q }
step_raw opened_q bang c p = record p { mode = usual; top = record p.top { negated = true } }
step_raw opened_q _ c p = record p { mode = usual }
step_raw (repeated m n x) maybe c p = make_lazy m n x p
step_raw (counting m) comma c p = record p { mode = counting_to m none }
step_raw (counting m) close_count c p = quantify m (some m) p
step_raw (counting m) _ c p = record p { mode = counting (digit_on m c) }
step_raw (counting_to m n) close_count c p = quantify m n p
step_raw (counting_to m none) _ c p = record p { mode = counting_to m (some (digit_on 0 c)) }
step_raw (counting_to m (some n)) _ c p = record p { mode = counting_to m (some (digit_on n c)) }
step_raw opened_set at_start c p = record p { mode = in_set true [] }
step_raw opened_set o c p = record p { mode = in_set false (item_of o c ∷ []) }
step_raw (in_set negated items) close_set c p = push (class negated (reverse items)) p
step_raw (in_set negated items) o c p = record p { mode = in_set negated (item_of o c ∷ items) }
step_raw _ o c p = usual_op o c p

-- A class holds `\.` as a unit of its own, so that `\-` is no range.
escaped_item : ℕ → Item
unfolding escaped
escaped_item e = kind (escaped e)

step_esc : Mode → ℕ → Parser → Parser
unfolding push escaped_item
step_esc opened_set e p = record p { mode = in_set false (escaped_item e ∷ []) }
step_esc (in_set negated items) e p = record p { mode = in_set negated (escaped_item e ∷ items) }
step_esc _ e p = push (if eqb e b'b' then edge else set (escaped e)) p

step : Parser → Symbol → Parser
unfolding step_raw step_esc op_in op_table
step p (raw c) = step_raw p.mode (op_in op_table c) c p
step p (esc c) = step_esc p.mode c p

steps : Parser → List Symbol → Parser
unfolding step
steps p [] = p
steps p (x ∷ xs) = steps (step p x) xs

parse : List ℕ → Parser
unfolding steps symbols new_frame
parse s = steps (record { mode = usual; top = new_frame; outer = [] }) (symbols s)

is_over : Mode → Bool
is_over usual = true
is_over (repeated m n x) = true
is_over _ = false

no_frames : List Frame → Bool
no_frames [] = true
no_frames (f ∷ fs) = false

-- Whether every group, class and count of the pattern ends.
unfoldable pub is_whole : String → Bool
unfolding parse is_over no_frames
is_whole pattern = is_over (parse (codes pattern)).mode && no_frames (parse (codes pattern)).outer

-- /pattern/
unfoldable pub regex : String → Regex
unfolding parse group
regex pattern = group (parse (codes pattern)).top

other_case : ℕ → ℕ
other_case c =
    if leb b'A' c && leb c b'Z' then c + 32 else if leb b'a' c && leb c b'z' then c - 32 else c

-- The `i` flag: a set takes a letter in both cases.
fold_case : Regex → Regex
unfolding other_case
fold_case (set f) = set (λ c. f c || f (other_case c))
fold_case (seq r s) = seq (fold_case r) (fold_case s)
fold_case (alt r s) = alt (fold_case r) (fold_case s)
fold_case (star greedy r) = star greedy (fold_case r)
fold_case (unless r) = unless (fold_case r)
fold_case r = r

-- /pattern/i
unfoldable pub regex_i : String → Regex
unfolding regex fold_case
regex_i pattern = fold_case (regex pattern)
