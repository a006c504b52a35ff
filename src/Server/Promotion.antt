-- ===== src/Server/Promotion.antt =====
-- What `_promote_attribution` of manyfaced/server/server.py gives.
use manyfaced_honeypot.Base.{
  Bool, ℕ, ℤ, true, false, Option, none, some, [], ◌∷◌, ◌++◌, if◌then◌else◌, ◌==◌, Text, codes, ◌≡◌,
  refl, sym, subst, ap, ◌∙◌, arith, All, all, IsDigit, show_nat-digits, parse_int-show_nat,
  IsReadable, decimal_of, is_digit_char, is_digit_ascii, is_empty, digits_from,
  digits_from-show_nat, is_digit, pos, show_nat, ◌⊎◌, inl, inr, Bool-cases,
}
use manyfaced_honeypot.Values.{
  ok, >>=-returns, Json, null, bool, integer, float, string, array, object, Fields, get, is_true,
  is_filled, or_else, empty, is_nonzero, ◌>>=◌,
}
use manyfaced_honeypot.Server.{
  after_last_colon, port_from_host, Attribution, flat_of, filled_or, inner, recover, recover_port,
  recovered, promoted_by, promoted_or_flat, promote_attribution, profile_dict, metadata_port,
  host_port,
}

-- The value of a field: what the report has, if that is true; or else what the profile holds, if that
-- is a text that is not empty; or else the empty text.
abbrev pub IsPromoted : Json → Json → Json → Type 0
IsPromoted old source v =
    ((is_true old ≡ true) × (v ≡ old))
    ⊎ ((is_true old ≡ false) × (is_filled source ≡ true) × (v ≡ source))
    ⊎ ((is_true old ≡ false) × (is_filled source ≡ false) × (v ≡ empty))

-- What the profile holds for a name: a value, or one of that name in a dict.
abbrev pub held : Text → Json → Json
held key (object fs) = get key fs
held key v = v

-- the same for the address, and where there may be no profile
abbrev pub source_of : Text → Option Fields → Json
source_of key none = null
source_of key (some bp) = held key (get key bp)

abbrev pub ip_source_of : Option Fields → Json
ip_source_of none = null
ip_source_of (some bp) = get (codes "bot_ip") bp

abbrev pub IsDict : Json → Type 0
IsDict v = (fs : Fields) × (v ≡ object fs)

abbrev holds_fields : Json → Bool
holds_fields (object fs) = true
holds_fields v = false

not-IsDict : (v w : Json) → v ≡ w → holds_fields w ≡ false → ¬ IsDict v
not-IsDict v w e h (fs, o) =
    let same : object fs ≡ w = sym o ∙ e in
    let clash : true ≡ false = ap holds_fields same ∙ h in absurd (cc)

-- The port: the report's, if that is true; or else the one after the profile's `metadata.host`, if it
-- is there and not zero; or else the one after the profile's `host`; or zero without a profile.
pub data IsPort (old : Json) : Option Fields → Json → Type 0 where
  reported : (bp : Option Fields) → is_true old ≡ true → IsPort old bp old
  without_profile : is_true old ≡ false → IsPort old none (integer (pos 0))
  from_metadata :
      (bp fs : Fields) (n : ℤ)
      → is_true old ≡ false
      → get (codes "metadata") bp ≡ object fs
      → port_from_host (get (codes "host") fs) ≡ ok n
      → is_nonzero n ≡ true
      → IsPort old (some bp) (integer n)
  from_host :
      (bp : Fields) (n : ℤ)
      → is_true old ≡ false
      → ¬ IsDict (get (codes "metadata") bp)
        ⊎ ((fs : Fields) × (m : ℤ) × (get (codes "metadata") bp ≡ object fs)
            × (port_from_host (get (codes "host") fs) ≡ ok m)
            × (is_nonzero m ≡ false))
      → port_from_host (get (codes "host") bp) ≡ ok n
      → IsPort old (some bp) (integer n)

-- a field of the report, and the profile's where that is false
fill-IsPromoted :
    (old source : Json)
    → IsPromoted old source (
        if is_true (or_else old empty)
        then or_else old empty
        else filled_or source (or_else old empty))
fill-IsPromoted old source = elim (Bool-cases (is_true old)) [
  | inl t ↦ rw t (inl (refl, rw t refl))
  | inr f ↦ elim (Bool-cases (is_filled source)) [
    | inl h ↦ rw (f, h) (inr (inl (refl, refl, refl)))
    | inr h ↦ rw (f, h) (inr (inr (refl, refl, refl)))
  ]
]

or_else-IsPromoted : (old : Json) → IsPromoted old null (or_else old empty)
or_else-IsPromoted old = elim (Bool-cases (is_true old)) [
  | inl t ↦ rw t (inl (refl, refl))
  | inr f ↦ rw f (inr (inr (refl, refl, refl)))
]

inner-held : (key : Text) (v old : Json) → inner key v old ≡ filled_or (held key v) old
inner-held key null old = refl
inner-held key (bool b) old = refl
inner-held key (integer n) old = refl
inner-held key (float n b s) old = refl
inner-held key (string s) old = refl
inner-held key (array xs) old = refl
inner-held key (object fs) old = refl

recover-IsPromoted :
    (key : Text) (bp : Fields) (old : Json)
    → IsPromoted old (held key (get key bp)) (recover key bp (or_else old empty))
recover-IsPromoted key bp old =
    rw (inner-held key (get key bp) (or_else old empty))
      (fill-IsPromoted old (held key (get key bp)))

module _ (loads : Text → Option Json) (report : Fields) where
  -- A field of the report under its name.
  abbrev pub Field : Text → Option Fields → Json → Type 0
  Field key bp v = IsPromoted (get key report) (source_of key bp) v

  -- What every field of a promotion is, with the profile that it may be taken from.
  pub record Promoted (bp : Option Fields) (a : Attribution) : Type 0 where
    pub ip : IsPromoted (get (codes "ip") report) (ip_source_of bp) a.ip
    pub asn : Field (codes "asn") bp a.asn
    pub org : Field (codes "org") bp a.org
    pub ua : Field (codes "ua") bp a.ua
    pub dns_name : Field (codes "dns_name") bp a.dns_name
    pub country : Field (codes "country") bp a.country
    pub continent : Field (codes "continent") bp a.continent
    pub login : Field (codes "login") bp a.login
    pub listen_port : IsPort (get (codes "listen_port") report) bp a.listen_port

  abbrev pub IsAttribution : Attribution → Type 0
  IsAttribution a = Promoted (profile_dict loads (get (codes "bot_profile_data") report)) a

  abbrev old_port : Json
  old_port = get (codes "listen_port") report

  host-IsPort :
      (bp : Fields) (port : Json)
      → is_true old_port ≡ false
      → ¬ IsDict (get (codes "metadata") bp)
        ⊎ ((fs : Fields) × (m : ℤ) × (get (codes "metadata") bp ≡ object fs)
            × (port_from_host (get (codes "host") fs) ≡ ok m)
            × (is_nonzero m ≡ false))
      → (port_from_host (get (codes "host") bp) >>= λ n. ok (integer n)) ≡ ok port
      → IsPort old_port (some bp) port
  host-IsPort bp port f why h =
      let (n, same, read) =
        >>=-returns (λ n. ok (integer n)) (port_from_host (get (codes "host") bp)) h in
      let e : integer n ≡ port = cc in
      subst (IsPort old_port (some bp)) e (from_host bp n f why read)

  dict-IsPort :
      (bp fs : Fields) (port : Json) (m : ℤ)
      → is_true old_port ≡ false
      → get (codes "metadata") bp ≡ object fs
      → port_from_host (get (codes "host") fs) ≡ ok m
      → host_port bp (integer m) ≡ ok port
      → IsPort old_port (some bp) port
  dict-IsPort bp fs port m f e read h = elim (Bool-cases (is_nonzero m)) [
    | inl t ↦
        let same : ok (integer m) ≡ ok port = sym (rw (t, host_port) refl) ∙ h in
        let p : integer m ≡ port = cc in
        subst (IsPort old_port (some bp)) p (from_metadata bp fs m f e read t)
    | inr z ↦ host-IsPort bp port f (inr (fs, m, e, read, z)) (sym (rw (z, host_port) refl) ∙ h)
  ]

  metadata_port-IsPort :
      (bp : Fields) (metadata port : Json)
      → get (codes "metadata") bp ≡ metadata
      → is_true old_port ≡ false
      → (metadata_port metadata (integer (pos 0)) >>= host_port bp) ≡ ok port
      → IsPort old_port (some bp) port
  metadata_port-IsPort bp (object fs) port e f h =
      let (v, next, made) =
        >>=-returns (host_port bp) (metadata_port (object fs) (integer (pos 0))) h in
      let (m, same, read) =
        >>=-returns (λ n. ok (integer n)) (port_from_host (get (codes "host") fs)) made in
      let p : integer m ≡ v = cc in dict-IsPort bp fs port m f e read (ap (host_port bp) p ∙ next)
  metadata_port-IsPort bp (null) port m f h = host-IsPort bp port f (inl (not-IsDict _ _ m refl)) h
  metadata_port-IsPort bp (bool x) port m f h =
      host-IsPort bp port f (inl (not-IsDict _ _ m refl)) h
  metadata_port-IsPort bp (integer n) port m f h =
      host-IsPort bp port f (inl (not-IsDict _ _ m refl)) h
  metadata_port-IsPort bp (float n x t) port m f h =
      host-IsPort bp port f (inl (not-IsDict _ _ m refl)) h
  metadata_port-IsPort bp (string t) port m f h =
      host-IsPort bp port f (inl (not-IsDict _ _ m refl)) h
  metadata_port-IsPort bp (array xs) port m f h =
      host-IsPort bp port f (inl (not-IsDict _ _ m refl)) h

  flat-Promoted : Promoted none (flat_of report)
  flat-Promoted = record {
    ip = or_else-IsPromoted (get (codes "ip") report);
    asn = or_else-IsPromoted (get (codes "asn") report);
    org = or_else-IsPromoted (get (codes "org") report);
    ua = or_else-IsPromoted (get (codes "ua") report);
    dns_name = or_else-IsPromoted (get (codes "dns_name") report);
    country = or_else-IsPromoted (get (codes "country") report);
    continent = or_else-IsPromoted (get (codes "continent") report);
    login = or_else-IsPromoted (get (codes "login") report);
    listen_port = elim (Bool-cases (is_true (get (codes "listen_port") report))) [
      | inl t ↦ rw t (reported none t)
      | inr f ↦ rw f (without_profile f)
    ];
  }

  recover_port-IsPort :
      (bp : Fields) (port : Json)
      → recover_port bp (flat_of report).listen_port ≡ ok port
      → IsPort old_port (some bp) port
  recover_port-IsPort bp port h = elim (Bool-cases (is_true old_port)) [
    | inl t ↦
        let same : recover_port bp (flat_of report).listen_port ≡ ok old_port = rw t (rw t refl) in
        let e : old_port ≡ port = cc in subst (IsPort old_port (some bp)) e (reported (some bp) t)
    | inr f ↦
        let same : recover_port bp (flat_of report).listen_port
            ≡ (metadata_port (get (codes "metadata") bp) (integer (pos 0)) >>= host_port bp) =
          rw f refl in
        metadata_port-IsPort bp (get (codes "metadata") bp) port refl f (sym same ∙ h)
  ]

  recovered-Promoted :
      (bp : Fields) (port : Json)
      → IsPort old_port (some bp) port
      → Promoted (some bp) (recovered bp (flat_of report) port)
  recovered-Promoted bp port is = record {
    ip = fill-IsPromoted (get (codes "ip") report) (get (codes "bot_ip") bp);
    asn = recover-IsPromoted (codes "asn") bp (get (codes "asn") report);
    org = recover-IsPromoted (codes "org") bp (get (codes "org") report);
    ua = recover-IsPromoted (codes "ua") bp (get (codes "ua") report);
    dns_name = recover-IsPromoted (codes "dns_name") bp (get (codes "dns_name") report);
    country = recover-IsPromoted (codes "country") bp (get (codes "country") report);
    continent = recover-IsPromoted (codes "continent") bp (get (codes "continent") report);
    login = recover-IsPromoted (codes "login") bp (get (codes "login") report);
    listen_port = is;
  }

  dict-Promoted :
      (bp : Option Fields) (a : Attribution)
      → promoted_or_flat (flat_of report) bp ≡ ok a
      → Promoted bp a
  unfolding promoted_by
  dict-Promoted none a h =
      let same : flat_of report ≡ a = cc in subst (Promoted none) same flat-Promoted
  dict-Promoted (some bp) a h =
      let (port, e, read) =
        >>=-returns (λ port. ok (recovered bp (flat_of report) port))
          (recover_port bp (flat_of report).listen_port) h in
      let same : recovered bp (flat_of report) port ≡ a = cc in
      subst (Promoted (some bp)) same
        (recovered-Promoted bp port (recover_port-IsPort bp port read))

  -- Every field that is promoted is the report's where that is true. Elsewhere a text field is the
  -- text, if not empty, that the profile holds for it, the address as `bot_ip` and the others under
  -- their names or one level deeper, or else the empty text; and the port is the one after the host
  -- in the profile's metadata, if that is not zero, or else the one after the profile's host,
  -- with zero for a host without a port or for no profile.
  pub promote_attribution-IsAttribution :
      (a : Attribution) → promote_attribution loads report ≡ ok a → IsAttribution a
  unfolding promote_attribution
  promote_attribution-IsAttribution a h = dict-Promoted _ a h

after_last_colon-digits : (s : Text) → All IsDigit s → after_last_colon s ≡ none
unfolding after_last_colon
after_last_colon-digits [] h = refl
after_last_colon-digits (c ∷ s) (d, h) =
    let other : (c == b':') ≡ false = ground arith in rw (after_last_colon-digits s h, other) refl

after_last_colon-append :
    (host s : Text) → All IsDigit s → after_last_colon (host ++ b':' ∷ s) ≡ some s
unfolding after_last_colon
after_last_colon-append [] s h = rw (after_last_colon-digits s h) refl
after_last_colon-append (c ∷ host) s h = rw (after_last_colon-append host s h) refl

all-digits : (s : Text) → All IsDigit s → all is_digit_char s ≡ true
unfolding is_digit_char decimal_of
all-digits [] h = refl
all-digits (c ∷ s) (d, h) =
    let ascii : is_digit_ascii c ≡ true = ground arith in rw (ascii, all-digits s h) refl

read_not_empty : (s : Text) (n : ℕ) → digits_from 0 false s ≡ some n → is_empty s ≡ false
unfolding digits_from
read_not_empty [] n h = cc
read_not_empty (c ∷ s) n h = refl

is_digit-show_nat : (n : ℕ) → is_digit (show_nat n) ≡ true
is_digit-show_nat n =
    rw (read_not_empty (show_nat n) n (digits_from-show_nat n false))
      (all-digits (show_nat n) (show_nat-digits n))

-- The port that stands after the last colon of a host is recovered, whatever the host.
pub port_from_host-show_nat :
    (host : Text) (n : ℕ)
    → IsReadable n
    → port_from_host (string (host ++ b':' ∷ show_nat n)) ≡ ok (pos n)
unfolding port_from_host
port_from_host-show_nat host n few =
    rw
      (
        after_last_colon-append host (show_nat n) (show_nat-digits n),
        is_digit-show_nat n,
        parse_int-show_nat n few,
      )
      refl
