-- ===== src/Service/Released.antt =====
-- Jt1078Service.cpp, ForwardServer.cpp and CarManager.cpp: a device that nobody watches any more has no
-- car.
use multi_process_server.Base.{
  ℕ, ◌≡◌, refl, sym, ap, ◌∙◌, ◌==◌, ◌^◌, ◌<◌, ◌⊎◌, inl, inr, if_elim, Bool, true, false, List, [],
  ◌∷◌, Bytes, Map, some, ◌>>=◌, not, length, subst,
}
use multi_process_server.DeviceId.{generate_device_id}
use multi_process_server.DeviceId.Text.{generate_device_id-generate_device_id_str_by_device_id}
use multi_process_server.Jt1078.Server.{Car, disconnect_car, del_car_by_device_id}
use multi_process_server.Jt1078.Server.Kick.{AllOther, disconnect_car-AllOther}
use multi_process_server.Forward.Server.{Notice, command, no_subscriber}
use multi_process_server.Service.{
  Service, send_command_to_808, notify_no_subscriber, with_text, device_of, serve_notice,
  serve_notices,
}

-- The cars of one kind of video.
abbrev pub cars_of : Bool → Service → Map Car
cars_of true s = s.realtime.cars
cars_of false s = s.history.cars

del_car-AllOther : (i k : ℕ) (m : Map Car) → AllOther i m → AllOther i (del_car_by_device_id k m)
unfolding del_car_by_device_id
del_car-AllOther i k [] h = tt
del_car-AllOther i k ((j, c) ∷ m) (e, h) =
    if_elim (AllOther i) (c.device_id == k) (λ _. del_car-AllOther i k m h)
      (λ _. (e, del_car-AllOther i k m h))

-- No notice brings a car.
abbrev IsShort : Notice → Type 0
IsShort (command id connect realtime) = id < 2 ^ 56
IsShort (no_subscriber id realtime) = id < 2 ^ 56

abbrev pub AllShortIds : List Notice → Type 0
AllShortIds [] = Unit
AllShortIds (n ∷ ns) = IsShort n × AllShortIds ns

-- Whether some notice says that the device has no subscriber left.
abbrev pub Tells : ℕ → Bool → List Notice → Type 0
Tells id realtime [] = ⊥
Tells id realtime (n ∷ ns) = (n ≡ no_subscriber id realtime) ⊎ Tells id realtime ns

module _ (live_address replay_address : Bytes × Bytes) where
  command_cars :
      (text : Bytes) (connect kind realtime : Bool) (s : Service)
      → cars_of realtime (send_command_to_808 live_address replay_address text connect kind s)
        ≡ cars_of realtime s
  unfolding send_command_to_808
  command_cars text connect kind true s =
      if_elim (λ (s' : Service). s'.realtime.cars ≡ s.realtime.cars) (not (length text == 14))
        (λ _. refl) (λ _. refl)
  command_cars text connect kind false s =
      if_elim (λ (s' : Service). s'.history.cars ≡ s.history.cars) (not (length text == 14))
        (λ _. refl) (λ _. refl)

  kick-AllOther :
      (id : ℕ) (text : Bytes) (kind realtime : Bool) (s : Service)
      → AllOther id (cars_of realtime s)
      → AllOther id
          (cars_of realtime (notify_no_subscriber live_address replay_address text kind s))
  unfolding notify_no_subscriber disconnect_car
  kick-AllOther id text true true s h =
      del_car-AllOther id (generate_device_id text) s.realtime.cars h
  kick-AllOther id text true false s h = h
  kick-AllOther id text false true s h = h
  kick-AllOther id text false false s h =
      del_car-AllOther id (generate_device_id text) s.history.cars h

  kick_here :
      (text : Bytes) (realtime : Bool) (s : Service)
      → AllOther
          (generate_device_id text)
          (cars_of realtime (notify_no_subscriber live_address replay_address text realtime s))
  unfolding notify_no_subscriber
  kick_here text true s = (disconnect_car-AllOther text s.realtime).0
  kick_here text false s = (disconnect_car-AllOther text s.history).0

  -- One notice about a device id below 2 ^ 56 is served.
  serve_one :
      (n : Notice) (s : Service)
      → IsShort n
      → (s' : Service) × (serve_notice live_address replay_address n s ≡ some s')
        × ((id : ℕ) (realtime : Bool)
            → AllOther id (cars_of realtime s)
            → AllOther id (cars_of realtime s'))
        × ((id : ℕ) (realtime : Bool)
            → n ≡ no_subscriber id realtime
            → AllOther id (cars_of realtime s'))
  unfolding serve_notice
  serve_one (command id connect kind) s small =
      let (text, written, read) = generate_device_id-generate_device_id_str_by_device_id id small in
      (
        send_command_to_808 live_address replay_address text connect kind s,
        ap (λ t. with_text live_address replay_address (command id connect kind) t s) written,
        λ i realtime h. subst (AllOther i) (sym (command_cars text connect kind realtime s)) h,
        λ i realtime e. cc,
      )
  serve_one (no_subscriber id kind) s small =
      let (text, written, read) = generate_device_id-generate_device_id_str_by_device_id id small in
      (
        notify_no_subscriber live_address replay_address text kind s,
        ap (λ t. with_text live_address replay_address (no_subscriber id kind) t s) written,
        λ i realtime h. kick-AllOther i text kind realtime s h,
        λ i realtime e.
            let here = kick_here text kind s in
            subst
              (λ (n : Notice). AllOther (device_of live_address replay_address n) (
                cars_of (kind_of n) (notify_no_subscriber live_address replay_address text kind s)))
              e
              (subst
                (λ j.
                  AllOther j
                    (cars_of kind (notify_no_subscriber live_address replay_address text kind s)))
                read here),
      )
    where
      kind_of : Notice → Bool
      kind_of (command i connect realtime) = realtime
      kind_of (no_subscriber i realtime) = realtime

  serve_rest :
      (ns : List Notice) (s : Service)
      → AllShortIds ns
      → (s' : Service) × (serve_notices live_address replay_address ns s ≡ some s')
        × ((id : ℕ) (realtime : Bool)
            → AllOther id (cars_of realtime s)
            → AllOther id (cars_of realtime s'))
        × ((id : ℕ) (realtime : Bool) → Tells id realtime ns → AllOther id (cars_of realtime s'))
  unfolding serve_notices
  serve_rest [] s small = (s, refl, λ id realtime h. h, λ id realtime t. absurd t)
  serve_rest (n ∷ ns) s (now, small) =
      let (s1, done, keeps, kicks) = serve_one n s now in
      let (s2, done2, keeps2, kicks2) = serve_rest ns s1 small in
      (
        s2,
        ap (λ o. o >>= serve_notices live_address replay_address ns) done ∙ done2,
        λ id realtime h. keeps2 id realtime (keeps id realtime h),
        λ id realtime t. elim t [
          | inl e ↦ keeps2 id realtime (kicks id realtime e)
          | inr later ↦ kicks2 id realtime later
        ],
      )

  -- The notices of the forward servers, about devices of at most 14 digits, are all served, and then no
  -- car of a device, of the video in question, is left that one of them says has no subscriber.
  pub serve_notices-AllOther :
      (ns : List Notice) (s : Service)
      → AllShortIds ns
      → (s' : Service) × (serve_notices live_address replay_address ns s ≡ some s')
        × ((id : ℕ) (realtime : Bool) → Tells id realtime ns → AllOther id (cars_of realtime s'))
  serve_notices-AllOther ns s small =
      let (s', done, keeps, kicks) = serve_rest ns s small in (s', done, kicks)
