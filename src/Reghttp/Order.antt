-- ===== src/Reghttp/Order.antt =====
-- internal/reghttp/http.go: `sortHostsCmp`, the comparison by which the hosts of a request are sorted.
use regclient.Base.{
  ℕ, ◌≡◌, ◌≢◌, Bool, true, false, not, ◌||◌, Option, none, some, arith, ltb, ◌==◌, if◌then◌else◌,
}
use regclient.Base.Text.{Chars, chars_eq, chars_eq_iff}

-- What the comparison asks of a host. The zero time is `none`.
pub record Host : Type 0 where
  pub name : Chars
  pub priority : ℕ
  pub backoff_last : Option ℕ

-- `Before`.
unfoldable pub is_before : Option ℕ → Option ℕ → Bool
is_before none none = false
is_before none (some b) = true
is_before (some a) none = false
is_before (some a) (some b) = ltb a b

unfoldable pub sort_hosts_cmp : ℕ → Chars → Host → Host → Bool
sort_hosts_cmp now upstream a b =
    if is_before (some now) a.backoff_last || is_before (some now) b.backoff_last
    then is_before a.backoff_last b.backoff_last
    else if not (a.priority == b.priority)
    then ltb a.priority b.priority
    else not (chars_eq a.name upstream)

-- The time of the host is not to come.
pub record IsFree (now : ℕ) (h : Host) : Type 0 where
  pub free : is_before (some now) h.backoff_last ≡ false

-- Of hosts with one priority that are not in a backoff, a mirror comes before the host itself. Of two
-- mirrors each comes before the other, so the comparison is not an order of them.
pub sort_hosts_cmp-upstream :
    (now : ℕ) (upstream : Chars) (a b c : Host)
    → IsFree now a
    → IsFree now b
    → IsFree now c
    → a.priority ≡ b.priority
    → b.priority ≡ c.priority
    → a.name ≢ upstream
    → b.name ≢ upstream
    → c.name ≡ upstream
    → (sort_hosts_cmp now upstream a c ≡ true)
      × (sort_hosts_cmp now upstream c a ≡ false)
      × (sort_hosts_cmp now upstream a b ≡ true)
      × (sort_hosts_cmp now upstream b a ≡ true)
unfolding sort_hosts_cmp
sort_hosts_cmp-upstream now upstream a b c f g h p q m n u = ground (
  arith,
  f.free,
  g.free,
  h.free,
  p,
  q,
  chars_eq_iff a.name upstream,
  chars_eq_iff b.name upstream,
  chars_eq_iff c.name upstream,
  m,
  n,
  u,
)
