-- ===== src/Channels/Mapping.antt =====
-- What `parse_channel_map` lets through.
use rpi_server.Prelude.{
  ℕ, zero, suc, ◌+◌, ◌≡◌, ◌≤◌, refl, sym, ap, subst, ◌∙◌, Bool, true, false, not, ◌||◌, Option,
  none, some, List, [], ◌∷◌, ◌++◌, if_elim, arith, ◌==◌, length, length-append, take, drop,
}
use rpi_server.Prelude.Int.{ℤ, pos, negsuc, ◌≤ℤ◌, ltb_ℤ}
use rpi_server.Bytes.{Bytes, codes, find}
use rpi_server.Bytes.Number.{stoi}
use rpi_server.Channels.{
  ChannelMapping, consumed_in_range, parse_mapping_number, both_numbers, is_found, parse_at,
  parse_item, Seen, mark, added, add_mapping, nothing_seen, behind_comma, map_round, map_loop,
  mappings_of, parse_channel_map, is_entry, accepts_from, accepts,
}

Holds : {A : Type 0} → (A → Type 0) → Option A → Type 0
Holds P none = Unit
Holds P (some a) = P a

IsIn : ℤ → ℤ → ℤ → Type 0
IsIn low high n = (low ≤ℤ n) × (n ≤ℤ high)

consumed_in_range-Holds :
    (value : Bytes) (low high : ℤ) (o : Option (ℤ × ℕ))
    → Holds (IsIn low high) (consumed_in_range value low high o)
unfolding consumed_in_range Holds IsIn
consumed_in_range-Holds value low high none = _
consumed_in_range-Holds value low high (some (n, consumed)) =
    if_elim (Holds (IsIn low high))
      (not (consumed == length value) || (ltb_ℤ n low || ltb_ℤ high n)) (λ h. _)
      (λ h. (ground arith, ground arith))

both_numbers-Holds :
    (a b : Option ℤ)
    → Holds (IsIn (pos 0) (pos 3)) a
    → Holds (IsIn (pos 1) (pos 4)) b
    → Holds (λ m. is_entry m ≡ true) (both_numbers a b)
unfolding both_numbers Holds IsIn is_entry
both_numbers-Holds none b h k = _
both_numbers-Holds (some a) none h k = _
both_numbers-Holds (some a) (some b) h k = ground arith

parse_at-Holds : (item : Bytes) (o : Option ℕ) → Holds (λ m. is_entry m ≡ true) (parse_at item o)
unfolding parse_at parse_mapping_number Holds
parse_at-Holds item none = _
parse_at-Holds item (some separator) =
    if_elim (Holds (λ (m : ChannelMapping). is_entry m ≡ true))
      (is_found (find (codes ":") (drop (separator + 1) item))) (λ h. _)
      (λ h.
        both_numbers-Holds _ _
          (consumed_in_range-Holds (take separator item) (pos 0) (pos 3)
            (stoi (take separator item)))
          (consumed_in_range-Holds (drop (separator + 1) item) (pos 1) (pos 4)
            (stoi (drop (separator + 1) item))))

-- The number of cameras seen.
abbrev bit : Bool → ℕ
bit true = 1
bit false = 0

abbrev count : (ℤ → Bool) → ℕ
count seen = bit (seen (pos 0)) + bit (seen (pos 1)) + bit (seen (pos 2)) + bit (seen (pos 3))

bit_le : (b : Bool) → bit b ≤ 1
bit_le true = omega arith
bit_le false = omega arith

count-mark :
    (seen : ℤ → Bool) (n : ℤ)
    → IsIn (pos 0) (pos 3) n
    → seen n ≡ false
    → count (mark seen n) ≡ count seen + 1
unfolding mark IsIn
count-mark seen (negsuc n) i h = absurd (omega (arith, i.0))
count-mark seen (pos zero) i h = rw h (omega arith)
count-mark seen (pos (suc zero)) i h = rw h (omega arith)
count-mark seen (pos (suc (suc zero))) i h = rw h (omega arith)
count-mark seen (pos (suc (suc (suc zero)))) i h = rw h (omega arith)
count-mark seen (pos (suc (suc (suc (suc n))))) i h = absurd (omega (arith, i.1))

count_le : (seen : ℤ → Bool) → count seen ≤ 4
count_le seen = omega (
  arith,
  bit_le (seen (pos 0)),
  bit_le (seen (pos 1)),
  bit_le (seen (pos 2)),
  bit_le (seen (pos 3)),
)

-- The flags after some entries.
abbrev after : List ChannelMapping → Seen → Seen
after [] s = s
after (m ∷ ms) s = after ms (added s m)

after-append :
    (ms : List ChannelMapping) (m : ChannelMapping) (s : Seen)
    → after (ms ++ (m ∷ [])) s ≡ added (after ms s) m
after-append [] m s = refl
after-append (k ∷ ms) m s = after-append ms m (added s k)

abbrev is_new : Seen → ChannelMapping → Bool
is_new s m = not (s.camera_seen m.camera_channel || s.channel_seen m.channel_id)

accepts_from-append :
    (ms : List ChannelMapping) (m : ChannelMapping) (s : Seen)
    → accepts_from ms s ≡ true
    → is_entry m ≡ true
    → is_new (after ms s) m ≡ true
    → accepts_from (ms ++ (m ∷ [])) s ≡ true
unfolding accepts_from
accepts_from-append [] m s h e n = ground arith
accepts_from-append (k ∷ ms) m s h e n = ground (arith, accepts_from-append ms m (added s k))

-- The state of the loop: its flags are those of its entries, and the constructor takes them.
record IsBuilt (s : Seen) : Type 0 where
  flags : s ≡ after s.mappings nothing_seen
  taken : accepts_from s.mappings nothing_seen ≡ true
  counted : count s.camera_seen ≡ length s.mappings

camera_bounded : (m : ChannelMapping) → is_entry m ≡ true → IsIn (pos 0) (pos 3) m.camera_channel
unfolding is_entry IsIn
camera_bounded m e = (ground arith, ground arith)

added-IsBuilt :
    (s : Seen) (m : ChannelMapping)
    → IsBuilt s
    → is_entry m ≡ true
    → is_new s m ≡ true
    → IsBuilt (added s m)
unfolding added
added-IsBuilt s m b e n = record {
  flags = ap (λ t. added t m) b.flags ∙ sym (after-append s.mappings m nothing_seen);
  taken =
      accepts_from-append s.mappings m nothing_seen b.taken e
        (subst (λ t. is_new t m ≡ true) b.flags n);
  counted =
      count-mark s.camera_seen m.camera_channel (camera_bounded m e) (ground arith)
      ∙ omega (arith, b.counted, length-append s.mappings (m ∷ []));
}

-- Built, with at least `n` entries.
abbrev Result : ℕ → Seen → Type 0
Result n s = IsBuilt s × (n ≤ length s.mappings)

add_mapping-Result :
    (n : ℕ) (s : Seen) (o : Option ChannelMapping)
    → IsBuilt s
    → n ≤ length s.mappings + 1
    → Holds (λ m. is_entry m ≡ true) o
    → Holds (Result n) (add_mapping s o)
unfolding add_mapping Holds
add_mapping-Result n s none b l h = _
add_mapping-Result n s (some m) b l h =
    if_elim (Holds (Result n)) (s.camera_seen m.camera_channel || s.channel_seen m.channel_id)
      (λ old. _) (λ new. (added-IsBuilt s m b h (rw new refl), added_length s m n l))
  where
    added_length :
        (s : Seen) (m : ChannelMapping) (n : ℕ)
        → n ≤ length s.mappings + 1
        → n ≤ length (added s m).mappings
    added_length s m n l = omega (arith, length-append s.mappings (m ∷ []))

behind_comma-Result :
    (n : ℕ) (o : Option Seen) (rest : Bytes) (next : Seen → Option Seen)
    → Holds (Result n) o
    → ((t : Seen) → Result n t → Holds (Result n) (next t))
    → Holds (Result n) (behind_comma o rest next)
unfolding behind_comma Holds
behind_comma-Result n none rest next h f = _
behind_comma-Result n (some s) [] next h f = _
behind_comma-Result n (some s) (c ∷ rest) next h f = f s h

parse_item-Holds : (item : Bytes) → Holds (λ m. is_entry m ≡ true) (parse_item item)
unfolding parse_item
parse_item-Holds item = parse_at-Holds item (find (codes ":") item)

map_round-Result :
    (n : ℕ) (comma : Option ℕ) (value : Bytes) (s : Seen) (next : Bytes → Seen → Option Seen)
    → IsBuilt s
    → n ≤ length s.mappings + 1
    → ((rest : Bytes) (t : Seen) → Result n t → Holds (Result n) (next rest t))
    → Holds (Result n) (map_round comma value s next)
unfolding map_round
map_round-Result n none value s next b l f =
    add_mapping-Result n s (parse_item value) b l (parse_item-Holds value)
map_round-Result n (some comma) value s next b l f =
    behind_comma-Result n (add_mapping s (parse_item (take comma value))) (drop (comma + 1) value)
      (next (drop (comma + 1) value))
      (add_mapping-Result n s (parse_item (take comma value)) b l
        (parse_item-Holds (take comma value)))
      (f (drop (comma + 1) value))

map_loop-Result :
    (fuel n : ℕ) (value : Bytes) (s : Seen) → Result n s → Holds (Result n) (map_loop fuel value s)
unfolding map_loop Holds
map_loop-Result zero n value s r = r
map_loop-Result (suc fuel) n [] s r = r
map_loop-Result (suc fuel) n (c ∷ value) s r =
    map_round-Result n (find (codes ",") (c ∷ value)) (c ∷ value) s (λ rest t. map_loop fuel rest t)
      r.0 (omega (arith, r.1)) (λ rest t. map_loop-Result fuel n rest t)

-- The first round leaves one entry at least.
map_loop-first :
    (fuel c : ℕ) (value : Bytes) → Holds (Result 1) (map_loop (suc fuel) (c ∷ value) nothing_seen)
unfolding map_loop nothing_seen accepts_from
map_loop-first fuel c value =
    map_round-Result 1 (find (codes ",") (c ∷ value)) (c ∷ value) nothing_seen
      (λ rest t. map_loop fuel rest t) (record { flags = refl; taken = refl; counted = refl })
      (omega arith) (λ rest t. map_loop-Result fuel 1 rest t)

accepts_built :
    (s : Seen) (delay : ℤ) → Result 1 s → pos 0 ≤ℤ delay → accepts s.mappings delay ≡ true
unfolding accepts
accepts_built s delay r h = ground (arith, r.0.counted, r.0.taken, count_le s.camera_seen)

mappings_of-accepts :
    (o : Option Seen) (ms : List ChannelMapping) (delay : ℤ)
    → Holds (Result 1) o
    → pos 0 ≤ℤ delay
    → mappings_of o ≡ some ms
    → accepts ms delay ≡ true
unfolding mappings_of Holds
mappings_of-accepts none ms delay r h e = cc
mappings_of-accepts (some s) ms delay r h e =
    subst (Holds (λ (l : List ChannelMapping). accepts l delay ≡ true)) e
      (accepts_built s delay r h)

-- A channel map that is accepted on the command line is accepted by the constructor of
-- `ChannelManager`, for any start delay that is not negative: it has one to four entries, their
-- channels are in range, and no camera channel and no VMS channel is there twice.
pub parse_channel_map-accepts :
    (value : Bytes) (ms : List ChannelMapping) (delay : ℤ)
    → pos 0 ≤ℤ delay
    → parse_channel_map value ≡ some ms
    → accepts ms delay ≡ true
unfolding parse_channel_map
parse_channel_map-accepts [] ms delay h e = cc
parse_channel_map-accepts (c ∷ value) ms delay h e =
    mappings_of-accepts (map_loop (length (c ∷ value)) (c ∷ value) nothing_seen) ms delay
      (map_loop-first (length value) c value) h e
