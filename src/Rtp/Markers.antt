-- ===== src/Rtp/Markers.antt =====
-- The marker of the packets of an access unit: it tells the receiver that the unit is complete.
use rpi_server.Prelude.{
  ℕ, zero, suc, ◌+◌, ◌-◌, ◌%◌, ◌^◌, ◌≤◌, ◌<◌, ◌≡◌, refl, Bool, true, false, ◌&&◌, some, List, [],
  ◌∷◌, ◌++◌, append-nil, min, leb, ◌==◌, if_elim, length, drop, arith, All, length-drop, drop_all,
  Bool-cases, inl, inr,
}
use rpi_server.Bytes.{Bytes}
use rpi_server.FrameQueue.{VideoCodec, h264, h265}
use rpi_server.Rtp.{RtpPacket, RtpContext, Sent, is_last, packetize_access_unit}
use rpi_server.Rtp.Items.{
  Item, fu_items, fu_items-nil, h264_items, h265_items, fragment_items, nal_items, unit_items,
}
use rpi_server.Rtp.Packets.{number, packetize-number, packetize_returns}

-- The last packet is marked and no other.
abbrev pub LastMarked : List RtpPacket → Type 0
LastMarked [] = ⊥
LastMarked (p ∷ []) = p.marker ≡ true
LastMarked (p ∷ q ∷ ps) = (p.marker ≡ false) × LastMarked (q ∷ ps)

abbrev LastItem : List Item → Type 0
LastItem [] = ⊥
LastItem ((p, m) ∷ []) = m ≡ true
LastItem ((p, m) ∷ i ∷ items) = (m ≡ false) × LastItem (i ∷ items)

abbrev Unmarked : List Item → Type 0
Unmarked = All (λ (i : Item). i.1 ≡ false)

LastItem-append : (xs ys : List Item) → Unmarked xs → LastItem ys → LastItem (xs ++ ys)
LastItem-append [] ys u l = l
LastItem-append ((p, m) ∷ []) [] u l = absurd l
LastItem-append ((p, m) ∷ []) (i ∷ ys) u l = (u.0, l)
LastItem-append ((p, m) ∷ i ∷ xs) ys u l = (u.0, LastItem-append (i ∷ xs) ys u.1 l)

LastItem-stop :
    (p : Bytes) (end : Bool) (xs : List Item)
    → end ≡ true
    → xs ≡ []
    → LastItem ((p, end && true) ∷ xs)
LastItem-stop p end [] e n = ground arith
LastItem-stop p end (i ∷ xs) e n = cc

LastItem-next :
    (p : Bytes) (end : Bool) (xs : List Item)
    → end ≡ false
    → LastItem xs
    → LastItem ((p, end && true) ∷ xs)
LastItem-next p end [] e l = absurd l
LastItem-next p end (i ∷ xs) e l = (ground arith, l)

and-false : (b : Bool) → (b && false) ≡ false
and-false true = refl
and-false false = refl

fu_items-Unmarked :
    (fuel : ℕ) (prefix : Bytes) (ty limit : ℕ) (first : Bool) (rest : Bytes)
    → Unmarked (fu_items fuel prefix ty limit false first rest)
unfolding fu_items
fu_items-Unmarked zero prefix ty limit first rest = tt
fu_items-Unmarked (suc fuel) prefix ty limit first [] = tt
fu_items-Unmarked (suc fuel) prefix ty limit first (b ∷ rest) =
    (and-false _, fu_items-Unmarked fuel prefix ty limit false _)

fu_items-LastItem :
    (fuel : ℕ) (prefix : Bytes) (ty limit : ℕ) (first : Bool) (rest : Bytes)
    → 0 < limit
    → 0 < length rest
    → length rest ≤ fuel
    → LastItem (fu_items fuel prefix ty limit true first rest)
unfolding fu_items
fu_items-LastItem zero prefix ty limit first rest l n f = absurd (omega arith)
fu_items-LastItem (suc fuel) prefix ty limit first [] l n f = absurd (omega arith)
fu_items-LastItem (suc fuel) prefix ty limit first (b ∷ rest) l n f = elim (Bool-cases end) [
  | inl done ↦
      LastItem-stop [] end later done (
        rw (drop_all chunk (b ∷ rest) (ground arith))
          (fu_items-nil fuel prefix ty limit true false))
  | inr more_left ↦ LastItem-next [] end later more_left (
      fu_items-LastItem fuel prefix ty limit false (drop chunk (b ∷ rest)) l
        (ground (arith, length-drop chunk (b ∷ rest)))
        (ground (arith, length-drop chunk (b ∷ rest))))
]
  where
    chunk : ℕ
    chunk = min limit (length (b ∷ rest))

    end : Bool
    end = chunk == length (b ∷ rest)

    later : List Item
    later = fu_items fuel prefix ty limit true false (drop chunk (b ∷ rest))

fragment_items-Unmarked :
    (k : VideoCodec) (mtu h : ℕ) (rest : Bytes) → Unmarked (fragment_items k mtu false h rest)
unfolding fragment_items h264_items h265_items
fragment_items-Unmarked h264 mtu h rest = fu_items-Unmarked _ _ _ _ true rest
fragment_items-Unmarked h265 mtu h [] = tt
fragment_items-Unmarked h265 mtu h (b ∷ []) = tt
fragment_items-Unmarked h265 mtu h (h1 ∷ b ∷ rest) = fu_items-Unmarked _ _ _ _ true (b ∷ rest)

fragment_items-LastItem :
    (k : VideoCodec) (mtu h : ℕ) (rest : Bytes)
    → 15 < mtu
    → mtu - 12 < length (h ∷ rest)
    → LastItem (fragment_items k mtu true h rest)
unfolding fragment_items h264_items h265_items
fragment_items-LastItem h264 mtu h rest m l =
    fu_items-LastItem (length rest) _ _ (mtu - 12 - 2) true rest (omega arith) (omega arith)
      (omega arith)
fragment_items-LastItem h265 mtu h [] m l = absurd (omega arith)
fragment_items-LastItem h265 mtu h (b ∷ []) m l = absurd (omega arith)
fragment_items-LastItem h265 mtu h (h1 ∷ b ∷ rest) m l =
    fu_items-LastItem (length (b ∷ rest)) _ _ (mtu - 12 - 3) true (b ∷ rest) (omega arith)
      (omega arith) (omega arith)

nal_items-Unmarked : (k : VideoCodec) (mtu : ℕ) (nal : Bytes) → Unmarked (nal_items k mtu false nal)
unfolding nal_items
nal_items-Unmarked k mtu [] = tt
nal_items-Unmarked k mtu (h ∷ rest) =
    if_elim Unmarked (leb (length (h ∷ rest)) (mtu - 12)) (λ _. (refl, tt))
      (λ _. fragment_items-Unmarked k mtu h rest)

nal_items-LastItem :
    (k : VideoCodec) (mtu h : ℕ) (rest : Bytes)
    → 15 < mtu
    → LastItem (nal_items k mtu true (h ∷ rest))
unfolding nal_items
nal_items-LastItem k mtu h rest m =
    if_elim LastItem (leb (length (h ∷ rest)) (mtu - 12)) (λ _. refl)
      (λ big. fragment_items-LastItem k mtu h rest m (ground arith))

is_last-append : (xs : List Bytes) (y : Bytes) → is_last (xs ++ (y ∷ [])) ≡ false
unfolding is_last
is_last-append [] y = refl
is_last-append (x ∷ xs) y = refl

unit_items-LastItem :
    (k : VideoCodec) (mtu : ℕ) (nals : List Bytes) (h : ℕ) (rest : Bytes)
    → 15 < mtu
    → LastItem (unit_items k mtu (nals ++ ((h ∷ rest) ∷ [])))
unfolding unit_items is_last
unit_items-LastItem k mtu [] h rest m = rw append-nil (nal_items-LastItem k mtu h rest m)
unit_items-LastItem k mtu (nal ∷ nals) h rest m = rw (is_last-append nals (h ∷ rest)) (
    LastItem-append (nal_items k mtu false nal) _ (nal_items-Unmarked k mtu nal)
      (unit_items-LastItem k mtu nals h rest m))

number-LastMarked :
    (c : RtpContext) (n : ℕ) (items : List Item) → LastItem items → LastMarked (number c n items)
number-LastMarked c n [] l = absurd l
number-LastMarked c n ((p, m) ∷ []) l = l
number-LastMarked c n ((p, m) ∷ i ∷ items) l =
    (l.0, number-LastMarked c ((n + 1) % 2 ^ 16) (i ∷ items) l.1)

returned-LastMarked :
    (c : RtpContext) (nals : List Bytes) (h : ℕ) (rest : Bytes) (n : ℕ) (r : Sent)
    → packetize_access_unit c (nals ++ ((h ∷ rest) ∷ [])) n ≡ some r
    → LastMarked r.packets
returned-LastMarked c nals h rest n r e =
    let (big, packets, _) = packetize-number c (nals ++ ((h ∷ rest) ∷ [])) n r e in
    rw packets (number-LastMarked c n _ (unit_items-LastItem c.codec c.mtu nals h rest big))

-- For an MTU over 15, an access unit whose last NAL unit is not empty has packets: the last of
-- them is marked and no other is, whichever units were split.
pub packetize-LastMarked :
    (c : RtpContext) (nals : List Bytes) (h : ℕ) (rest : Bytes) (n : ℕ)
    → 15 < c.mtu
    → (r : Sent) × (packetize_access_unit c (nals ++ ((h ∷ rest) ∷ [])) n ≡ some r)
      × LastMarked r.packets
packetize-LastMarked c nals h rest n m =
    let (r, e) = packetize_returns c (nals ++ ((h ∷ rest) ∷ [])) n m in
    (r, e, returned-LastMarked c nals h rest n r e)
