-- ===== src/Jt1078/Server/Relay.antt =====
-- Jt1078Server.cpp: the service is notified of what the car sends.
use multi_process_server.Base.{
  ℕ, arith, ◌≡◌, refl, sym, ap, subst, ◌∙◌, ◌==◌, if_then, if_else, Bool, true, false, ◌||◌, List,
  [], ◌∷◌, map, concat, Bytes, length, none, some, get_or, drop,
}
use mathlib.Core.Option.{some-injective}
use multi_process_server.Buffer.{Alloc}
use multi_process_server.Buffer.Contents.{readable}
use multi_process_server.DeviceId.{generate_device_id, generate_device_id_str}
use multi_process_server.Jt1078.Header.{Header, Packet, payload}
use multi_process_server.Jt1078.Decoder.{Decoder, read_header_step1}
use multi_process_server.Jt1078.Decoder.Frame.{Frame, wire, header_of}
use multi_process_server.Jt1078.CarSession.{Event, packet_complete, packet_error, feed}
use multi_process_server.Jt1078.CarSession.Chunks.{AllSmall, IsIdle}
use multi_process_server.Jt1078.CarSession.Frames.{shown, expected, AllFrames, feed-frames}
use multi_process_server.Jt1078.Server.{Car, new_car, update_device_id_if_empty, process}

abbrev pub device_of : Header → ℕ
device_of h = generate_device_id (generate_device_id_str h.sim_card_number h.logic_channel_number)

-- What the service sees of a notification: the device id, the header and the payload.
abbrev pub view : ℕ × Packet → ℕ × (Header × Bytes)
view (id, p) = (id, (p.header, payload p))

abbrev pub sent : ℕ → Frame → ℕ × (Header × Bytes)
sent id f = (id, (header_of f, f.body))

-- The packets are all of one device.
abbrev pub AllOf : ℕ → List Frame → Type 0
AllOf id [] = Unit {0}
AllOf id (f ∷ fs) = (device_of (header_of f) ≡ id) × AllOf id fs

-- A car without a device id, or with this one.
data Knows (id : ℕ) (c : Car) : Type 0 where
  unknown : (c.device_id == 0) ≡ true → Knows id c
  known : c.device_id ≡ id → (length c.device_text == 0) ≡ false → Knows id c

text_there :
    (sim : Bytes) (channel : ℕ) → (length (generate_device_id_str sim channel) == 0) ≡ false
unfolding generate_device_id_str
text_there [] channel = refl
text_there (b ∷ sim) channel = ground arith

or_true : (a b : Bool) → a ≡ true → (a || b) ≡ true
or_true true b e = refl
or_true false b e = absurd cc

or_false : (a b : Bool) → a ≡ false → b ≡ false → (a || b) ≡ false
or_false true b e f = absurd cc
or_false false b e f = f

update_device_id_if_empty-Knows :
    (id : ℕ) (h : Header) (c : Car)
    → (id == 0) ≡ false
    → device_of h ≡ id
    → Knows id c
    → ((update_device_id_if_empty h c).device_id ≡ id)
      × ((length (update_device_id_if_empty h c).device_text == 0) ≡ false)
unfolding update_device_id_if_empty
update_device_id_if_empty-Knows id h c valid e (unknown empty) =
    subst (λ (c : Car). (c.device_id ≡ id) × ((length c.device_text == 0) ≡ false))
      (sym (if_then (c.device_id == 0 || length c.device_text == 0) _ _ (or_true _ _ empty)))
      (e, text_there h.sim_card_number h.logic_channel_number)
update_device_id_if_empty-Knows id h c valid e (known same text) =
    subst (λ (c : Car). (c.device_id ≡ id) × ((length c.device_text == 0) ≡ false))
      (sym (
        if_else (c.device_id == 0 || length c.device_text == 0) _ _
          (or_false _ _ (ap (λ n. n == 0) same ∙ valid) text)))
      (same, text)

process-frames :
    (id : ℕ) (es : List Event) (fs : List Frame) (c : Car)
    → (id == 0) ≡ false
    → map shown es ≡ map expected fs
    → AllOf id fs
    → Knows id c
    → map view (process es c).notified ≡ map (sent id) fs
unfolding process
process-frames id [] [] c valid same all k = refl
process-frames id [] (f ∷ fs) c valid same all k = absurd cc
process-frames id (e ∷ es) [] c valid same all k = absurd cc
process-frames id (packet_error t ∷ es) (f ∷ fs) c valid same all k =
    absurd (let e : none ≡ some (header_of f, f.body) = ap (λ xs. get_or xs 0 none) same in cc)
process-frames id (packet_complete p ∷ es) (f ∷ fs) c valid same (of, all) k =
    let first : (p.header, payload p) ≡ (header_of f, f.body) =
      some-injective _ _ (ap (λ xs. get_or xs 0 none) same) in
    let c' = update_device_id_if_empty p.header c in
    let (named, text) =
      update_device_id_if_empty-Knows id p.header c valid (ap (λ hb. device_of hb.0) first ∙ of)
        k in
    (λ i. (named i, first i) ∷ map view (process es c').notified)
    ∙ ap (◌∷◌ (sent id f))
        (process-frames id es fs c' valid (ap (drop 1) same) all (known named text))

module _ (alloc : Alloc) where
  -- A car that sends packets of one device, whose id is not 0, over a connection that cuts their bytes
  -- into reads of at most 5 KB in any way: the service is notified of each of them, in order, under this
  -- device id, with its header and payload.
  pub process-feed :
      (id : ℕ) (fs : List Frame) (cs : List Bytes) (d : Decoder)
      → (id == 0) ≡ false
      → AllOf id fs
      → IsIdle d
      → d.read_status ≡ read_header_step1
      → readable d.buffer ≡ []
      → AllFrames fs
      → AllSmall cs
      → concat cs ≡ concat (map wire fs)
      → map view (process (feed alloc cs d) new_car).notified ≡ map (sent id) fs
  process-feed id fs cs d valid one i e nothing all small same =
      process-frames id (feed alloc cs d) fs new_car valid
        (feed-frames alloc fs cs d i e nothing all small same) one (unknown refl)
