-- ===== src/Config/Kept.antt =====
-- What every option of a command line keeps, a whole command line keeps.
use mathlib.Core.Option
use rpi_server.Prelude.{◌||◌, Option, none, some, List, [], ◌∷◌, if_elim, arith, All}
use rpi_server.Prelude.Int.{ℤ, ◌≤ℤ◌, ltb_ℤ}
use rpi_server.Bytes.{Bytes, equal}
use rpi_server.Bytes.Number.{stoi}
use rpi_server.Config.{
  Handling, flag, valued, help, refused, in_range, parse_int, all_consumed, choose, last_option,
  with_value, handled, Parsed, parsed, failed, exited, parse_options,
}

abbrev pub IsIn : ℤ → ℤ → ℤ → Type 0
IsIn low high n = (low ≤ℤ n) × (n ≤ℤ high)

unfoldable pub Holds : {A : Type 0} → (A → Type 0) → Option A → Type 0
Holds P none = Unit
Holds P (some a) = P a

in_range-IsIn : (low high : ℤ) (o : Option ℤ) → Holds (IsIn low high) (in_range low high o)
unfolding in_range Holds
in_range-IsIn low high none = _
in_range-IsIn low high (some n) =
    if_elim (Holds (IsIn low high)) (ltb_ℤ n low || ltb_ℤ high n) (λ h. _)
      (λ h. (ground arith, ground arith))

pub Holds-map :
    {A C : Type 0} (P : A → Type 0) (Q : C → Type 0) (set : A → C) (o : Option A)
    → ((a : A) → P a → Q (set a))
    → Holds P o
    → Holds Q (Option.map set o)
unfolding Holds
Holds-map P Q set none f h = _
Holds-map P Q set (some a) f h = f a h

Any : {A : Type 0} → A → Type 0
Any a = Unit

Holds-Any : {A : Type 0} (o : Option A) → Holds Any o
unfolding Holds Any
Holds-Any none = _
Holds-Any (some a) = _

unfoldable pub OnParsed : {C : Type 0} → (C → Type 0) → Parsed C → Type 0
OnParsed P (parsed c) = P c
OnParsed P failed = Unit
OnParsed P exited = Unit

module _ {C : Type 0} (P : C → Type 0) where
  -- An option keeps the property.
  abbrev pub Keeps : Handling C → Type 0
  Keeps (flag c) = P c
  Keeps (valued take) = (value : Bytes) → Holds P (take value)
  Keeps help = Unit
  Keeps refused = Unit

  pub set_any :
      {A : Type 0} (set : A → C) (o : Option A) → ((a : A) → P (set a)) → Holds P (Option.map set o)
  set_any set o f = Holds-map Any P set o (λ a h. f a) (Holds-Any o)

  pub set_int :
      (low high : ℤ) (v : Bytes) (set : ℤ → C)
      → ((n : ℤ) → IsIn low high n → P (set n))
      → Holds P (Option.map set (parse_int v low high))
  unfolding parse_int
  set_int low high v set f =
      Holds-map (IsIn low high) P set _ f (in_range-IsIn low high (all_consumed v (stoi v)))

  choose-Keeps :
      (arg : Bytes) (os : List (Bytes × Handling C))
      → All (λ (o : Bytes × Handling C). Keeps o.1) os
      → Keeps (choose arg os)
  unfolding choose
  choose-Keeps arg [] k = _
  choose-Keeps arg ((name, handling) ∷ later) k =
      if_elim Keeps (equal arg name) (λ h. k.0) (λ h. choose-Keeps arg later k.1)

  last_option-OnParsed : (h : Handling C) → Keeps h → OnParsed P (last_option h)
  unfolding last_option OnParsed
  last_option-OnParsed (flag c) k = k
  last_option-OnParsed (valued take) k = _
  last_option-OnParsed help k = _
  last_option-OnParsed refused k = _

  with_value-OnParsed :
      (o : Option C) (later : C → Parsed C)
      → Holds P o
      → ((c : C) → P c → OnParsed P (later c))
      → OnParsed P (with_value o later)
  unfolding with_value OnParsed Holds
  with_value-OnParsed none later k f = _
  with_value-OnParsed (some c) later k f = f c k

  handled-OnParsed :
      (h : Handling C) (value : Bytes) (next behind : C → Parsed C)
      → Keeps h
      → ((c : C) → P c → OnParsed P (next c))
      → ((c : C) → P c → OnParsed P (behind c))
      → OnParsed P (handled h value next behind)
  unfolding handled OnParsed
  handled-OnParsed (flag c) value next behind k f g = f c k
  handled-OnParsed (valued take) value next behind k f g =
      with_value-OnParsed (take value) behind (k value) g
  handled-OnParsed help value next behind k f g = _
  handled-OnParsed refused value next behind k f g = _

  pub parse_options-OnParsed :
      (table : C → List (Bytes × Handling C)) (args : List Bytes) (c : C)
      → ((d : C) → P d → All (λ (o : Bytes × Handling C). Keeps o.1) (table d))
      → P c
      → OnParsed P (parse_options table args c)
  unfolding parse_options OnParsed
  parse_options-OnParsed table [] c k r = r
  parse_options-OnParsed table (arg ∷ []) c k r =
      last_option-OnParsed (choose arg (table c)) (choose-Keeps arg (table c) (k c r))
  parse_options-OnParsed table (arg ∷ value ∷ args) c k r =
      handled-OnParsed (choose arg (table c)) value (λ set. parse_options table (value ∷ args) set)
        (λ set. parse_options table args set) (choose-Keeps arg (table c) (k c r))
        (λ set i. parse_options-OnParsed table (value ∷ args) set k i)
        (λ set i. parse_options-OnParsed table args set k i)
