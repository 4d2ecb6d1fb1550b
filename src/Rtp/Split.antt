-- ===== src/Rtp/Split.antt =====
-- src/live/live_rtsp_server.cpp: `split_access_unit`, which takes the NAL units out of an access
-- unit in Annex B form (start codes) or in length-prefixed form. A position in the vector is the
-- list of the bytes from there on; each loop's fuel is the number of bytes, of which a round
-- takes one at least.
pub mod AnnexB
pub mod Prefixed
use rpi_server.Prelude.{
  ℕ, zero, suc, ◌+◌, ◌-◌, ◌*◌, ◌^◌, Bool, true, false, not, ◌&&◌, ◌||◌, Option, none, some, List,
  [], ◌∷◌, ◌++◌, ltb, leb, ◌==◌, if◌then◌else◌, length, take, drop, get_or,
}
use rpi_server.Bytes.{Bytes}

unfoldable pub start_code_size : Bytes → ℕ
start_code_size s =
    if leb 3 (length s) && (get_or s 0 0 == 0 && (get_or s 1 0 == 0 && get_or s 2 0 == 1))
    then 3
    else if leb 4 (length s)
        && (get_or s 0 0 == 0 && (get_or s 1 0 == 0 && (get_or s 2 0 == 0 && get_or s 3 0 == 1)))
    then 4
    else 0

unfoldable pub read_u32 : Bytes → ℕ
read_u32 s = get_or s 0 0 * 2 ^ 24 + get_or s 1 0 * 2 ^ 16 + get_or s 2 0 * 2 ^ 8 + get_or s 3 0

-- The loop that looks for `first_start`.
unfoldable pub first_start : Bytes → Option Bytes
unfolding start_code_size
first_start [] = none
first_start (c ∷ s) = if not (start_code_size (c ∷ s) == 0) then some (c ∷ s) else first_start s

-- The inner loop: the number of bytes before the next start code.
unfoldable pub nal_size : Bytes → ℕ
unfolding start_code_size
nal_size [] = 0
nal_size (c ∷ s) = if start_code_size (c ∷ s) == 0 then suc (nal_size s) else 0

-- `if (next > nal_start) nal_units.emplace_back(…)`
unfoldable pub push_nal : Bytes → List Bytes → List Bytes
push_nal [] later = later
push_nal (c ∷ nal) later = (c ∷ nal) ∷ later

unfoldable pub annexb_loop : ℕ → Bytes → List Bytes
unfolding start_code_size nal_size push_nal
annexb_loop zero s = []
annexb_loop (suc fuel) [] = []
annexb_loop (suc fuel) (c ∷ s) =
    let prefix = start_code_size (c ∷ s) in
    let body = drop prefix (c ∷ s) in
    let next = annexb_loop fuel s in
    let units =
      push_nal (take (nal_size body) body) (annexb_loop fuel (drop (nal_size body) body)) in
    if prefix == 0 then next else units

-- The loop over the length prefixes: the units and the bytes left when it ends.
unfoldable pub prefixed_loop : ℕ → Bytes → List Bytes → List Bytes × Bytes
unfolding read_u32
prefixed_loop zero s units = (units, s)
prefixed_loop (suc fuel) s units =
    let size = read_u32 s in
    let more = prefixed_loop fuel (drop size (drop 4 s)) (units ++ (take size (drop 4 s) ∷ [])) in
    if ltb (length s) 4
    then (units, s)
    else if size == 0 || ltb (length s - 4) size
    then ([], s)
    else more

-- The two lines behind that loop.
unfoldable pub finish_units : Bytes → List Bytes × Bytes → List Bytes
finish_units [] (units, left) = units
finish_units (c ∷ s) ([], left) = (c ∷ s) ∷ []
finish_units (c ∷ s) (nal ∷ units, []) = nal ∷ units
finish_units (c ∷ s) (nal ∷ units, d ∷ left) = (nal ∷ units) ++ ((c ∷ s) ∷ [])

unfoldable pub units_from : Bytes → Option Bytes → List Bytes
unfolding annexb_loop prefixed_loop finish_units
units_from access_unit (some s) = annexb_loop (length s) s
units_from access_unit none =
    finish_units access_unit (prefixed_loop (length access_unit) access_unit [])

unfoldable pub split_access_unit : Bytes → List Bytes
unfolding first_start units_from
split_access_unit access_unit = units_from access_unit (first_start access_unit)
