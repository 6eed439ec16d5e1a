-- ===== src/JumpHosts/Parsed.antt =====
-- What the host text of a jump host (ssh/jump_host_parser.rs) is read as.
use switch_configurator.Prelude.{
  inl, inr, leb, Bool-cases, subst, ℕ, ◌≤◌, false, ◌≡◌, refl, Option, none, some, [], ◌∷◌, ◌++◌,
  Text, is_empty, nat_beq, All, arith, if◌then◌else◌, or_option, unwrap_or,
}
use switch_configurator.Prelude.Str.{split_once, rsplit_once, split_once-append}
use switch_configurator.Prelude.Decimal.{
  digits_value, parse_unsigned, below, parse_digits, parse_u16,
}
use switch_configurator.Models.SwitchConfig.{JumpHost, ResolvedJumpHost}
use switch_configurator.Config.Result.{
  ok_inj, >>=-eq_ok, Result, ok, err, ◌>>=◌, invalid_port, empty_hostname,
}
use switch_configurator.JumpHosts.{
  split_user, split_port, parsed_port, parse_parts, parse_host_string, resolve_jump_host,
}

-- text that the separator does not stand in
abbrev pub Without : ℕ → Text → Type 0
Without sep s = All (λ c. nat_beq c sep ≡ false) s

split_once-whole : (sep : ℕ) (s : Text) → Without sep s → split_once sep s ≡ none
unfolding split_once
split_once-whole sep [] h = refl
split_once-whole sep (c ∷ s) (h, hs) = rw (h, split_once-whole sep s hs) refl

rsplit_once-whole : (sep : ℕ) (s : Text) → Without sep s → rsplit_once sep s ≡ none
unfolding rsplit_once
rsplit_once-whole sep [] h = refl
rsplit_once-whole sep (c ∷ s) (h, hs) = rw (rsplit_once-whole sep s hs, h) refl

rsplit_once-append :
    (sep : ℕ) (s t : Text) → Without sep t → rsplit_once sep (s ++ sep ∷ t) ≡ some (s, t)
unfolding rsplit_once
rsplit_once-append sep [] t h = rw (rsplit_once-whole sep t h) (ground arith)
rsplit_once-append sep (c ∷ s) t h = rw (rsplit_once-append sep s t h) refl

-- `user@`, where a user is named
unfoldable pub user_text : Option Text → Text → Text
user_text none rest = rest
user_text (some user) rest = user ++ b'@' ∷ rest

-- `:port`, where a port is named
unfoldable pub port_text : Text → Option Text → Text
port_text hostname none = hostname
port_text hostname (some port) = hostname ++ b':' ∷ port

abbrev pub UserReadable : Option Text → Text → Type 0
UserReadable none rest = Without b'@' rest
UserReadable (some user) rest = Without b'@' user

abbrev pub PortReadable : Text → Option Text → Type 0
PortReadable hostname none = Without b':' hostname
PortReadable hostname (some port) = Without b':' port

abbrev read_port : Option Text → Text → Text → Option ℕ → Result (Option Text × Text × Option ℕ)
read_port user hostname port none = err (invalid_port port)
read_port user hostname port (some n) =
    if is_empty hostname then err empty_hostname else ok (user, hostname, some n)

-- what the parts of a host text stand for
unfoldable pub read_parts :
    Option Text → Text → Option Text → Result (Option Text × Text × Option ℕ)
read_parts user hostname none =
    if is_empty hostname then err empty_hostname else ok (user, hostname, none)
read_parts user hostname (some port) = read_port user hostname port (parse_u16 port)

parse_parts-port_text :
    (user : Option Text) (hostname : Text) (port : Option Text)
    → PortReadable hostname port
    → parse_parts (user, port_text hostname port) ≡ read_parts user hostname port
unfolding port_text read_parts
parse_parts-port_text user hostname none h = rw (rsplit_once-whole b':' hostname h) refl
parse_parts-port_text user hostname (some port) h =
    rw (rsplit_once-append b':' hostname port h) (read (parse_u16 port))
  where
    read :
        (n : Option ℕ)
        → (parsed_port hostname port n >>= λ (h, p).
            if is_empty h then err empty_hostname else ok (user, h, p))
          ≡ read_port user hostname port n
    read none = refl
    read (some n) = refl

-- A host text that consists of a user without `@`, or none, of a hostname, and of a port without `:`, or
-- none, is read as those parts: a port that is no number of 16 bits is refused and named, then an
-- empty hostname is refused, and otherwise the parts come back. Where no user is named, the text has no
-- `@`, and where no port is named, the hostname has no `:`, which it may have otherwise.
pub parse_host_string-parts :
    (user : Option Text) (hostname : Text) (port : Option Text)
    → UserReadable user (port_text hostname port)
    → PortReadable hostname port
    → parse_host_string (user_text user (port_text hostname port)) ≡ read_parts user hostname port
unfolding parse_host_string user_text
parse_host_string-parts none hostname port h p =
    rw (split_once-whole b'@' (port_text hostname port) h)
      (parse_parts-port_text none hostname port p)
parse_host_string-parts (some user) hostname port h p =
    rw (split_once-append b'@' user (port_text hostname port) h)
      (parse_parts-port_text (some user) hostname port p)

abbrev FitsPort : Option ℕ → Type 0
FitsPort none = Unit {0}
FitsPort (some n) = n ≤ 65535

FitsPort-below : (n : Option ℕ) → FitsPort (below 65535 n)
FitsPort-below none = tt
FitsPort-below (some n) = elim (Bool-cases (leb n 65535)) [
  | inl fits ↦ rw fits (ground arith)
  | inr large ↦ rw large tt
]

FitsPort-digits : (s : Text) → FitsPort (parse_digits 65535 s)
unfolding parse_digits
FitsPort-digits [] = tt
FitsPort-digits (c ∷ s) = FitsPort-below (digits_value 0 (c ∷ s))

FitsPort-u16 : (s : Text) → FitsPort (parse_u16 s)
unfolding parse_unsigned
FitsPort-u16 [] = tt
FitsPort-u16 (c ∷ s) = elim (Bool-cases (nat_beq c b'+')) [
  | inl plus ↦ rw plus (FitsPort-digits s)
  | inr digit ↦ rw digit (FitsPort-digits (c ∷ s))
]

-- the hostname is not empty and the port fits
abbrev IsSound : Option Text × Text × Option ℕ → Type 0
IsSound parts = (is_empty parts.1 ≡ false) × FitsPort parts.2

named_IsSound :
    (user : Option Text) (hostname : Text) (port : Option ℕ)
    → FitsPort port
    → {parts : Option Text × Text × Option ℕ}
    → (if is_empty hostname then err empty_hostname else ok (user, hostname, port)) ≡ ok parts
    → IsSound parts
named_IsSound user [] port fits h = cc
named_IsSound user (c ∷ s) port fits h = subst IsSound (ok_inj h) (refl, fits)

port_IsSound :
    (user : Option Text) (hostname port_str : Text) (port : Option ℕ)
    → FitsPort port
    → {parts : Option Text × Text × Option ℕ}
    → (parsed_port hostname port_str port >>= λ (h, p).
        if is_empty h then err empty_hostname else ok (user, h, p))
      ≡ ok parts
    → IsSound parts
port_IsSound user hostname port_str none fits h = cc
port_IsSound user hostname port_str (some n) fits h = named_IsSound user hostname (some n) fits h

parse_host_string-IsSound :
    (host : Text) {parts : Option Text × Text × Option ℕ}
    → parse_host_string host ≡ ok parts
    → IsSound parts
unfolding parse_host_string
parse_host_string-IsSound host h = parts_IsSound (split_user host (split_once b'@' host)) h
  where
    split_IsSound :
        (user : Option Text) (host_port : Text) (cut : Option (Text × Text))
        → {parts : Option Text × Text × Option ℕ}
        → (split_port host_port cut >>= λ (h, p).
            if is_empty h then err empty_hostname else ok (user, h, p))
          ≡ ok parts
        → IsSound parts
    split_IsSound user host_port none h = named_IsSound user host_port none tt h
    split_IsSound user host_port (some (hostname, port_str)) h =
        port_IsSound user hostname port_str (parse_u16 port_str) (FitsPort-u16 port_str) h

    parts_IsSound :
        (cut : Option Text × Text) {parts : Option Text × Text × Option ℕ}
        → parse_parts cut ≡ ok parts
        → IsSound parts
    parts_IsSound (user, host_port) h = split_IsSound user host_port (rsplit_once b':' host_port) h

port_bound :
    (explicit embedded : Option ℕ)
    → FitsPort explicit
    → FitsPort embedded
    → unwrap_or (or_option explicit embedded) 22 ≤ 65535
port_bound none none h k = ground arith
port_bound none (some n) h k = k
port_bound (some n) embedded h k = h

-- A jump host that is accepted has a hostname that is not empty and a port that fits 16 bits,
-- wherever the port comes from, where a port that the entry itself names does so.
pub resolve_jump_host-bounds :
    (env_user : Option Text) (jump_host : JumpHost) (target_username : Text)
    → FitsPort jump_host.port
    → {resolved : ResolvedJumpHost}
    → resolve_jump_host env_user jump_host target_username ≡ ok resolved
    → (is_empty resolved.hostname ≡ false) × (resolved.port ≤ 65535)
unfolding resolve_jump_host
resolve_jump_host-bounds env_user jump_host target_username fits {resolved} h =
    let (parts, read, e) = >>=-eq_ok (parse_host_string jump_host.host) _ h in
    let (named, port_fits) = parse_host_string-IsSound jump_host.host read in
    subst (λ r. (is_empty r.hostname ≡ false) × (r.port ≤ 65535)) (ok_inj e)
      (named, port_bound jump_host.port parts.2 fits port_fits)
