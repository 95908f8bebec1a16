-- ===== src/Exec/Header.antt =====
-- The reply of KEYS and SCAN.
use nohost_server.Base.{
  ℕ, zero, suc, ◌+◌, ◌-◌, ◌≤◌, ◌≡◌, refl, Bool, true, false, none, some, arith, length, view,
  view-blit,
}
use nohost_server.Client.{Client, client_write_byte}
use nohost_server.Session.{Session}
use nohost_server.Exec.{filler, write_filler, scan_header, exec_scan_keys}

-- write_filler only moves the end of the output and keeps the mark.
write_filler_lem :
    (n : ℕ) (c : Client)
    → ((write_filler n c).output_len ≡ c.output_len + n)
      × ((write_filler n c).output_valid ≡ c.output_valid)
unfolding write_filler client_write_byte
write_filler_lem zero c = (omega arith, refl)
write_filler_lem (suc n) c =
    let (moved, kept) = write_filler_lem n (client_write_byte c b'?') in (omega arith, kept)

length-scan_header : (scan : Bool) → length (scan_header scan) ≤ filler
unfolding scan_header
length-scan_header true = omega arith
length-scan_header false = omega arith

-- The reply of KEYS (`scan` false) and SCAN on an output that was empty: from `output_offset` to the end
-- of the output stands the header of an empty result and nothing else. The mark `output_valid` is as
-- before the command.
pub exec_scan_keys-header :
    (scan : Bool) (s : Session)
    → s.client.output_len ≡ 0
    → (s' : Session) × (exec_scan_keys scan s ≡ some (none, s'))
      × (view s'.client.output s'.client.output_offset
            (s'.client.output_len - s'.client.output_offset)
          ≡ scan_header scan)
      × (s'.client.output_valid ≡ s.client.output_valid)
unfolding exec_scan_keys
exec_scan_keys-header scan s empty =
    let (moved, kept) = write_filler_lem filler s.client in
    let room = length-scan_header scan in
    let size : (write_filler filler s.client).output_len - (filler - length (scan_header scan))
        ≡ length (scan_header scan) =
      omega arith in
    (
      _,
      refl,
      rw size (
          view-blit (write_filler filler s.client).output (filler - length (scan_header scan))
            (scan_header scan)),
      kept,
    )
