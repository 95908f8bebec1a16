-- ===== src/UdpServer/Keys.antt =====
-- udp_server.cpp: the key of a sender's address.
use nohost_server.Base.{ℕ, ◌+◌, ◌*◌, ◌%◌, ◌^◌, ◌<◌, ◌≡◌, ◌↔◌, ap, ◌∙◌, add64, int_of_char, arith}
use nohost_server.Command.Udp.{extended}
use nohost_server.UdpServer.{Sender, key_step, key_of_sender}

-- What was in the key moves up by eight bits in a step.
key_step-shift : (x k c : ℕ) → key_step ((x + k) % 2 ^ 64) c ≡ (x * 256 + key_step k c) % 2 ^ 64
unfolding key_step
key_step-shift x k c = let e = extended (int_of_char c) in omega arith

key_of_sender-shift :
    (g : ℕ) (s : Sender)
    → g < 2 ^ 64
    → key_of_sender g s ≡ (g * 2 ^ 40 + key_of_sender 0 s) % 2 ^ 64
unfolding key_of_sender
key_of_sender-shift g s small =
    let c1 = s.port_high in
    let c2 = s.port_low in
    let z1 = key_step 0 c1 in
    let z2 = key_step z1 c2 in
    let z3 = key_step z2 s.a in
    let z4 = key_step z3 s.b in
    let start : g ≡ (g + 0) % 2 ^ 64 = omega arith in
    let e1 = ap (λ k. key_step k c1) start ∙ key_step-shift g 0 c1 in
    let e2 = ap (λ k. key_step k c2) e1 ∙ key_step-shift (g * 256) z1 c2 in
    let e3 = ap (λ k. key_step k s.a) e2 ∙ key_step-shift (g * 256 * 256) z2 s.a in
    let e4 = ap (λ k. key_step k s.b) e3 ∙ key_step-shift (g * 256 * 256 * 256) z3 s.b in
    let e5 = ap (λ k. key_step k s.c) e4 ∙ key_step-shift (g * 256 * 256 * 256 * 256) z4 s.c in
    let last = extended (int_of_char s.d) in ap (λ k. add64 k last) e5 ∙ omega arith

-- The key of a sender is not a function of its address: it starts from what malloc's memory holds, and
-- two keys of one sender are equal exactly if the low 24 bits of that were equal both times.
pub key_of_sender-equal_iff :
    (g g' : ℕ) (s : Sender)
    → g < 2 ^ 64
    → g' < 2 ^ 64
    → (key_of_sender g s ≡ key_of_sender g' s) ↔ (g % 2 ^ 24 ≡ g' % 2 ^ 24)
key_of_sender-equal_iff g g' s small small' =
    let a = key_of_sender-shift g s small in
    let b = key_of_sender-shift g' s small' in
    let k = key_of_sender 0 s in (λ e. omega (arith, a, b, e), λ e. rw (a, b) (omega (arith, e)))
