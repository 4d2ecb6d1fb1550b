-- ===== src/Rtp/Items.antt =====
-- The packets of an access unit: their headers, numbers and sizes. The loops are first shown to
-- emit a list of payloads, each with its marker, in order.
use Prim.Native.Nat.{bit_and, bit_or}
use rpi_server.Prelude.{
  ℕ, zero, suc, ◌-◌, ◌*◌, ◌/◌, ◌≡◌, refl, sym, ap, ◌∙◌, Bool, true, false, ◌&&◌, none, some, List,
  [], ◌∷◌, ◌++◌, min, leb, ◌==◌, if◌then◌else◌, length, take, drop, arith,
}
use rpi_server.Bytes.{Bytes}
use rpi_server.FrameQueue.{VideoCodec, h264, h265}
use rpi_server.Rtp.{
  RtpContext, Sent, emit, fu_byte, fu_loop, fragment, packetize_nal, is_last, packetize_nals,
  packetize_access_unit,
}

-- A payload and its marker.
abbrev pub Item : Type 0
Item = Bytes × Bool

abbrev pub emit_all : RtpContext → List Item → Sent → Sent
emit_all c [] s = s
emit_all c ((p, m) ∷ items) s = emit_all c items (emit c p m s)

pub emit_all-append :
    (c : RtpContext) (xs ys : List Item) (s : Sent)
    → emit_all c (xs ++ ys) s ≡ emit_all c ys (emit_all c xs s)
emit_all-append c [] ys s = refl
emit_all-append c ((p, m) ∷ xs) ys s = emit_all-append c xs ys (emit c p m s)

unfoldable pub fu_items : ℕ → Bytes → ℕ → ℕ → Bool → Bool → Bytes → List Item
fu_items zero prefix ty limit last_nal first rest = []
fu_items (suc fuel) prefix ty limit last_nal first [] = []
fu_items (suc fuel) prefix ty limit last_nal first (b ∷ rest) =
    let chunk = min limit (length (b ∷ rest)) in
    let end = chunk == length (b ∷ rest) in
    (prefix ++ (fu_byte ty first end ∷ take chunk (b ∷ rest)), end && last_nal)
    ∷ fu_items fuel prefix ty limit last_nal false (drop chunk (b ∷ rest))

pub fu_items-nil :
    (fuel : ℕ) (prefix : Bytes) (ty limit : ℕ) (last first : Bool)
    → fu_items fuel prefix ty limit last first [] ≡ []
unfolding fu_items
fu_items-nil zero prefix ty limit last first = refl
fu_items-nil (suc fuel) prefix ty limit last first = refl

fu_loop-items :
    (fuel : ℕ) (c : RtpContext) (prefix : Bytes) (ty limit : ℕ) (last first : Bool) (rest : Bytes)
    (s : Sent)
    → fu_loop fuel c prefix ty limit last first rest s
      ≡ emit_all c (fu_items fuel prefix ty limit last first rest) s
unfolding fu_loop fu_items
fu_loop-items zero c prefix ty limit last first rest s = refl
fu_loop-items (suc fuel) c prefix ty limit last first [] s = refl
fu_loop-items (suc fuel) c prefix ty limit last first (b ∷ rest) s =
    fu_loop-items fuel c prefix ty limit last false _ _

unfoldable pub h264_items : ℕ → Bool → ℕ → Bytes → List Item
h264_items mtu last header rest =
    fu_items (length rest) (bit_or (bit_and header 0xe0) 28 ∷ []) (bit_and header 0x1f)
      (mtu - 12 - 2) last true rest

unfoldable pub h265_items : ℕ → Bool → ℕ → Bytes → List Item
h265_items mtu last header [] = []
h265_items mtu last header (b ∷ []) = []
h265_items mtu last header (header1 ∷ b ∷ rest) =
    fu_items (length (b ∷ rest)) (bit_or (bit_and header 0x81) (49 * 2) ∷ header1 ∷ [])
      (bit_and (header / 2) 0x3f) (mtu - 12 - 3) last true (b ∷ rest)

unfoldable pub fragment_items : VideoCodec → ℕ → Bool → ℕ → Bytes → List Item
fragment_items h264 mtu last header rest = h264_items mtu last header rest
fragment_items h265 mtu last header rest = h265_items mtu last header rest

unfoldable pub nal_items : VideoCodec → ℕ → Bool → Bytes → List Item
nal_items codec mtu last [] = []
nal_items codec mtu last (header ∷ rest) =
    if leb (length (header ∷ rest)) (mtu - 12)
    then (header ∷ rest, last) ∷ []
    else fragment_items codec mtu last header rest

-- The payloads of an access unit, with their markers.
unfoldable pub unit_items : VideoCodec → ℕ → List Bytes → List Item
unfolding is_last
unit_items codec mtu [] = []
unit_items codec mtu (nal ∷ rest) =
    nal_items codec mtu (is_last rest) nal ++ unit_items codec mtu rest

fragment-items :
    (k : VideoCodec) (c : RtpContext) (last : Bool) (header : ℕ) (rest : Bytes) (s : Sent)
    → fragment k c last header rest s ≡ emit_all c (fragment_items k c.mtu last header rest) s
unfolding fragment fragment_items h264_items h265_items
fragment-items h264 c last header rest s = fu_loop-items _ c _ _ _ last true rest s
fragment-items h265 c last header [] s = refl
fragment-items h265 c last header (b ∷ []) s = refl
fragment-items h265 c last header (h ∷ b ∷ rest) s = fu_loop-items _ c _ _ _ last true (b ∷ rest) s

packetize_nal-items :
    (c : RtpContext) (last : Bool) (nal : Bytes) (s : Sent)
    → packetize_nal c last nal s ≡ emit_all c (nal_items c.codec c.mtu last nal) s
unfolding packetize_nal nal_items
packetize_nal-items c last [] s = refl
packetize_nal-items c last (h ∷ rest) s = ground (arith, fragment-items c.codec c last h rest s)

packetize_nals-items :
    (c : RtpContext) (nals : List Bytes) (s : Sent)
    → packetize_nals c nals s ≡ emit_all c (unit_items c.codec c.mtu nals) s
unfolding packetize_nals unit_items
packetize_nals-items c [] s = refl
packetize_nals-items c (nal ∷ rest) s =
    packetize_nals-items c rest (packetize_nal c (is_last rest) nal s)
    ∙ ap (emit_all c (unit_items c.codec c.mtu rest)) (packetize_nal-items c (is_last rest) nal s)
    ∙ sym (emit_all-append c (nal_items c.codec c.mtu (is_last rest) nal) _ s)

-- The access unit's packets are those of its payloads, in order.
pub packetize-items :
    (c : RtpContext) (nals : List Bytes) (sequence : ℕ)
    → packetize_access_unit c nals sequence ≡ (
        if leb c.mtu 15
        then none
        else some (
            emit_all c
              (unit_items c.codec c.mtu nals)
              (record { packets = []; sequence = sequence })))
unfolding packetize_access_unit
packetize-items c nals sequence =
    rw (packetize_nals-items c nals (record { packets = []; sequence = sequence }))
