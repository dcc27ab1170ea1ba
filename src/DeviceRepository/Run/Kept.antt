-- ===== src/DeviceRepository/Run/Kept.antt =====
-- The devices and the senders over a run of source/src/device_repository.cc and source/src/lldp_repository.cc.
use link_layer_discovery.Base.{
  ℕ, true, List, [], ◌∷◌, ◌≡◌, refl, arith, has_value, Bool-cases, inl, inr, subst, ap, sym, ◌∙◌,
}
use link_layer_discovery.Base.Ints.{pos, ltb_int, as_int}
use link_layer_discovery.Base.Key.{nat_key}
use link_layer_discovery.Base.Map.{Map, lookup}
use link_layer_discovery.Device.{DeviceData}
use link_layer_discovery.Sender.{LldpSender, Host}
use link_layer_discovery.Sender
use link_layer_discovery.Netlink.{Kernel}
use link_layer_discovery.Netlink.Reader
use Reader.{
  Reader, Notice, silent, device_update, address_update, end_of_dump, dump_errored,
  handle_device_packet, handle_ip_packet, trigger_ip_dump, trigger_device_dump,
}
use link_layer_discovery.Repository.{Repository, tick_each}
use link_layer_discovery.Repository.Contains.{contains, update_state-contains}
use link_layer_discovery.DeviceRepository.{
  DeviceRepository, World, expedite_limit, device_notice, ip_notice, ip_reader_finished,
  receive_device_packet, receive_ip_packet, tick_device_reader, tick_ip_reader, count_sync, tick,
}
use link_layer_discovery.DeviceRepository.Devices.{
  IsIndexed, Changes, handle_link_packet-Changes, handle_address_packet-Changes,
}
use link_layer_discovery.DeviceRepository.Run.{
  Event, device_packet, ip_packet, monitor_packet, clock, tick_local, handle, run,
}

-- The map of the devices is in order, and each sender has a device.
pub record IsCovered (w : World) : Type 0 where
  pub indexed : IsIndexed w.local.devices
  pub covered : (q : ℕ) → contains q w.senders ≡ true → has_value (lookup q w.local.devices) ≡ true

-- Nothing is dropped.
pub record Keeps (w w' : World) : Type 0 where
  pub valid : IsCovered w'
  pub devices :
      (q : ℕ)
      → has_value (lookup q w.local.devices) ≡ true
      → has_value (lookup q w'.local.devices) ≡ true
  pub senders : (q : ℕ) → contains q w.senders ≡ true → contains q w'.senders ≡ true

Keeps-trans : {a b c : World} → Keeps a b → Keeps b c → Keeps a c
Keeps-trans p q = record {
  valid = q.valid;
  devices = λ i h. q.devices i (p.devices i h);
  senders = λ i h. q.senders i (p.senders i h);
}

-- The devices and the senders are the same.
same-Keeps :
    (w : World) (d : DeviceRepository) (k : Kernel)
    → IsCovered w
    → d.devices ≡ w.local.devices
    → Keeps w (record w { local = d; kernel = k })
same-Keeps w d k v e = record {
  valid = record {
    indexed = subst IsIndexed (sym e) v.indexed;
    covered = λ q h. ap (λ m. has_value (lookup q m)) e ∙ v.covered q h;
  };
  devices = λ q h. ap (λ m. has_value (lookup q m)) e ∙ h;
  senders = λ q h. h;
}

-- A packet about one device.
changed-Keeps :
    (w : World) (index : ℕ) (m : Map ℕ DeviceData)
    → IsCovered w
    → Changes index w.local.devices m × IsIndexed m
    → Keeps w (record w { local = record (w.local) { devices = m } })
changed-Keeps w index m v c = record {
  valid = record { indexed = c.1; covered = λ q h. c.0.kept q (v.covered q h) };
  devices = c.0.kept;
  senders = λ q h. h;
}

ip_reader_finished-Keeps : (w : World) → IsCovered w → Keeps w (ip_reader_finished w)
unfolding ip_reader_finished
ip_reader_finished-Keeps w v =
    let same = λ (q : ℕ). update_state-contains w.local.devices q w.senders in
    record {
      valid = record { indexed = v.indexed; covered = λ q h. ground (arith, same q, h) };
      devices = λ q h. h;
      senders = λ q h. ground (arith, same q, v.covered q h);
    }

device_notice-Keeps : (n : Notice) (w : World) → IsCovered w → Keeps w (device_notice n w)
unfolding device_notice
device_notice-Keeps silent w v = same-Keeps w w.local w.kernel v refl
device_notice-Keeps (device_update p) w v =
    changed-Keeps w p.ifi_index _ v (handle_link_packet-Changes p w.local.devices v.indexed)
device_notice-Keeps (address_update p) w v = same-Keeps w w.local w.kernel v refl
device_notice-Keeps end_of_dump w v =
    let (r, k) = trigger_ip_dump w.local.ip_reader w.kernel in
    same-Keeps w (record (w.local) { ip_reader = r }) k v refl
device_notice-Keeps dump_errored w v =
    same-Keeps w (record (w.local) { sync_timeout = pos expedite_limit }) w.kernel v refl

ip_notice-Keeps : (n : Notice) (w : World) → IsCovered w → Keeps w (ip_notice n w)
unfolding ip_notice
ip_notice-Keeps silent w v = same-Keeps w w.local w.kernel v refl
ip_notice-Keeps (address_update p) w v =
    changed-Keeps w p.ifa_index _ v (handle_address_packet-Changes p w.local.devices v.indexed)
ip_notice-Keeps (device_update p) w v = same-Keeps w w.local w.kernel v refl
ip_notice-Keeps end_of_dump w v = ip_reader_finished-Keeps w v
ip_notice-Keeps dump_errored w v =
    same-Keeps w (record (w.local) { sync_timeout = pos expedite_limit }) w.kernel v refl

-- A reader has changed, and made its callback.
device_reader-Keeps :
    (r : Reader) (n : Notice) (w : World)
    → IsCovered w
    → Keeps w (device_notice n (record w { local = record (w.local) { device_reader = r } }))
device_reader-Keeps r n w v =
    let first = same-Keeps w (record (w.local) { device_reader = r }) w.kernel v refl in
    Keeps-trans first (device_notice-Keeps n _ first.valid)

ip_reader-Keeps :
    (r : Reader) (n : Notice) (w : World)
    → IsCovered w
    → Keeps w (ip_notice n (record w { local = record (w.local) { ip_reader = r } }))
ip_reader-Keeps r n w v =
    let first = same-Keeps w (record (w.local) { ip_reader = r }) w.kernel v refl in
    Keeps-trans first (ip_notice-Keeps n _ first.valid)

count_sync-Keeps : (delta : ℕ) (w : World) → IsCovered w → Keeps w (count_sync delta w)
unfolding count_sync
count_sync-Keeps delta w v =
    let (r, k) = trigger_device_dump w.local.device_reader w.kernel in
    elim (Bool-cases (ltb_int (as_int delta) w.local.sync_timeout)) [
      | inl later ↦ simp (later) (same-Keeps w _ w.kernel v refl)
      | inr now ↦
          simp (now)
            (same-Keeps w (record (w.local) { sync_timeout = pos 120; device_reader = r }) k v refl)
    ]

contains-tick_each :
    (delta q : ℕ) (m : Map ℕ LldpSender) (h : Host)
    → has_value (lookup q (tick_each delta m h).0) ≡ has_value (lookup q m)
unfolding tick_each lookup
contains-tick_each delta q [] h = refl
contains-tick_each delta q ((idx, s) ∷ m) h =
    ground (arith, contains-tick_each delta q m (Sender.tick delta (s, h)).1)

senders-Keeps :
    (w : World) (r : Repository)
    → IsCovered w
    → ((q : ℕ) → contains q r ≡ contains q w.senders)
    → Keeps w (record w { senders = r })
senders-Keeps w r v e = record {
  valid = record { indexed = v.indexed; covered = λ q h. v.covered q (sym (e q) ∙ h) };
  devices = λ q h. h;
  senders = λ q h. e q ∙ h;
}

pub tick_local-Keeps : (delta : ℕ) (w : World) → IsCovered w → Keeps w (tick_local delta w)
unfolding tick_local tick tick_device_reader tick_ip_reader
tick_local-Keeps delta w v =
    let first = Reader.tick delta w.local.device_reader in
    let a = device_reader-Keeps first.0 first.1 w v in
    let w1 = tick_device_reader delta w in
    let second = Reader.tick delta w1.local.ip_reader in
    let b = ip_reader-Keeps second.0 second.1 w1 a.valid in
    let w2 = tick_ip_reader delta w1 in
    let c = count_sync-Keeps delta w2 b.valid in
    let w3 = count_sync delta w2 in
    let d =
      senders-Keeps w3 (tick_each delta w3.senders.0 w3.senders.1) c.valid
        (λ q. contains-tick_each delta q w3.senders.0 w3.senders.1) in
    Keeps-trans a (Keeps-trans b (Keeps-trans c d))

pub handle-Keeps : (e : Event) (w : World) → IsCovered w → Keeps w (handle e w)
unfolding handle receive_device_packet receive_ip_packet
handle-Keeps (device_packet p) w v =
    let (r, n) = handle_device_packet p w.local.device_reader in device_reader-Keeps r n w v
handle-Keeps (ip_packet p) w v =
    let (r, n) = handle_ip_packet p w.local.ip_reader in ip_reader-Keeps r n w v
handle-Keeps (monitor_packet p) w v =
    same-Keeps w (record (w.local) { sync_timeout = pos expedite_limit }) w.kernel v refl
handle-Keeps (clock delta) w v = tick_local-Keeps delta w v

-- From a state where every sender has a device, and the devices stand in order, each under its own
-- index, any run of packets and ticks leads to such a state again, drops no device, and takes its
-- sender from no interface, whatever the kernel reports.
pub run-Keeps : (l : List Event) (w : World) → IsCovered w → Keeps w (run l w)
unfolding run
run-Keeps [] w v = same-Keeps w w.local w.kernel v refl
run-Keeps (e ∷ l) w v =
    let first = handle-Keeps e w v in Keeps-trans first (run-Keeps l (handle e w) first.valid)
