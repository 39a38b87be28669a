-- ===== src/Jt1078/Server/Kick.antt =====
-- CarManager.cpp: which cars stay when a device is disconnected.
use multi_process_server.Base.{
  ℕ, ◌≡◌, sym, ap, ◌∙◌, ◌==◌, if_elim, if_then, if_else, false, Bool-cases, inl, inr, Bytes, [],
  ◌∷◌, Map, find, some,
}
use mathlib.Core.Option.{some-injective}
use multi_process_server.DeviceId.{generate_device_id}
use multi_process_server.Jt1078.Server.{Car, Server, del_car_by_device_id, disconnect_car}

-- No car has the device id.
abbrev pub AllOther : ℕ → Map Car → Type 0
AllOther device_id [] = Unit {0}
AllOther device_id ((j, c) ∷ m) = ((c.device_id == device_id) ≡ false) × AllOther device_id m

del_car_by_device_id-AllOther : (i : ℕ) (m : Map Car) → AllOther i (del_car_by_device_id i m)
unfolding del_car_by_device_id
del_car_by_device_id-AllOther i [] = tt
del_car_by_device_id-AllOther i ((j, c) ∷ m) =
    if_elim (AllOther i) (c.device_id == i) (λ _. del_car_by_device_id-AllOther i m)
      (λ e. (e, del_car_by_device_id-AllOther i m))

stays :
    (i k : ℕ) (c : Car) (m : Map Car)
    → find k m ≡ some c
    → (c.device_id == i) ≡ false
    → find k (del_car_by_device_id i m) ≡ some c
unfolding del_car_by_device_id find
stays i k c [] e other = absurd cc
stays i k c ((j, d) ∷ m) e other = elim (Bool-cases (j == k)) [
  | inl here ↦
      let same : d ≡ c = some-injective d c (sym (if_then (j == k) _ _ here) ∙ e) in
      let kept : (d.device_id == i) ≡ false = ap (λ c. c.device_id == i) same ∙ other in
      ap (find k) (if_else (d.device_id == i) _ _ kept) ∙ if_then (j == k) _ _ here ∙ ap some same
  | inr there ↦
      let later = stays i k c m (sym (if_else (j == k) _ _ there) ∙ e) other in
      if_elim (λ (m' : Map Car). find k m' ≡ some c) (d.device_id == i) (λ _. later)
        (λ _. if_else (j == k) _ _ there ∙ later)
]

-- After a device is disconnected no car has its id, and the cars of the other devices are as before.
pub disconnect_car-AllOther :
    (text : Bytes) (s : Server)
    → AllOther (generate_device_id text) (disconnect_car text s).cars
      × ((k : ℕ) (c : Car)
          → find k s.cars ≡ some c
          → (c.device_id == generate_device_id text) ≡ false
          → find k (disconnect_car text s).cars ≡ some c)
unfolding disconnect_car
disconnect_car-AllOther text s = (
  del_car_by_device_id-AllOther (generate_device_id text) s.cars,
  λ k c. stays (generate_device_id text) k c s.cars,
)
