-- ===== src/Live/Sets.antt =====
-- src/live/live_rtsp_server.cpp: the parameter sets in front of a client's first frame.
use rpi_server.Prelude.{◌≡◌, refl, ap, Bool, true, false, List, [], ◌∷◌, ◌++◌, if◌then◌else◌, All}
use rpi_server.Bytes.{Bytes}
use rpi_server.FrameQueue.{VideoCodec}
use rpi_server.Rtp.Reassembly.{IsNal, nonempty}
use rpi_server.Live.{LiveClient, SendContext, parameter_sets, drop_empty, leading_sets}

-- What a client has to hear before a frame, where it has waited for it.
abbrev pub due_sets : SendContext → LiveClient → VideoCodec → List Bytes
due_sets x c codec = if c.waiting_for_keyframe then parameter_sets x.sets codec else []

nonempty-drop_empty :
    (sets nals : List Bytes) → nonempty (drop_empty sets ++ nals) ≡ nonempty (sets ++ nals)
unfolding drop_empty
nonempty-drop_empty [] nals = refl
nonempty-drop_empty ([] ∷ sets) nals = nonempty-drop_empty sets nals
nonempty-drop_empty ((c ∷ set) ∷ sets) nals =
    ap (λ l. (c ∷ set) ∷ l) (nonempty-drop_empty sets nals)

drop_empty-All :
    (k : VideoCodec) (sets nals : List Bytes)
    → All (IsNal k) (sets ++ nals)
    → All (IsNal k) (drop_empty sets ++ nals)
unfolding drop_empty
drop_empty-All k [] nals h = h
drop_empty-All k ([] ∷ sets) nals (_, h) = drop_empty-All k sets nals h
drop_empty-All k ((c ∷ set) ∷ sets) nals (i, h) = (i, drop_empty-All k sets nals h)

abbrev IsSame : VideoCodec → List Bytes → List Bytes → List Bytes → Type 0
IsSame k nals sent due =
    (nonempty (sent ++ nals) ≡ nonempty (due ++ nals))
    × (All (IsNal k) (due ++ nals) → All (IsNal k) (sent ++ nals))

sent-IsSame :
    (k : VideoCodec) (sets nals : List Bytes) (b : Bool)
    → IsSame k nals (if b then drop_empty sets else []) (if b then sets else [])
sent-IsSame k sets nals true = (nonempty-drop_empty sets nals, drop_empty-All k sets nals)
sent-IsSame k sets nals false = (refl, λ h. h)

pub leading_sets-IsSame :
    (x : SendContext) (c : LiveClient) (k : VideoCodec) (nals : List Bytes)
    → (nonempty (leading_sets x c k ++ nals) ≡ nonempty (due_sets x c k ++ nals))
      × (All (IsNal k) (due_sets x c k ++ nals) → All (IsNal k) (leading_sets x c k ++ nals))
unfolding leading_sets
leading_sets-IsSame x c k nals = sent-IsSame k (parameter_sets x.sets k) nals c.waiting_for_keyframe
