-- ===== src/Helper/Beside.antt =====
-- The table by which marked traffic leaves beside the tunnel sends nothing into it.
use varmlen_cli_linux.Common.{◌≡◌, refl, Bool, true, false, not, Option, none, some, List, [], ◌∷◌}
use varmlen_cli_linux.Common.Lists.{All}
use varmlen_cli_linux.Helper.{
  Default, Default6, Mark, xray_dial, bypass, Command, add_tun, address_tun, tun_up, dns_route,
  dns_rule_del, dns_rule_add, physical_default, physical_default6, throw, throw6, mark_rule_del,
  mark_rule_add,
}
use varmlen_cli_linux.Helper.Up.{
  Host, in_order, quietly, each, quiet_if, ensure_tun, install_dns_policy_route,
  set_rp_filter_loose, add_rule_fwmark, lay_bypass_table, lay_bypass_table6, throws, throws6,
}
use varmlen_cli_linux.Helper.Outcome.{is_flip, HostLaws, then-Outcome, both-Outcome, Keeps}

module _ {S : Type 0} (host : Host S) (Laid : Command → S → Type 0) (Apart : S → Type 0)
    (laws : HostLaws host Laid Apart) where
  ip-Keeps : (c : Command) → is_flip c ≡ false → Keeps Apart (host.ip c)
  ip-Keeps c e s p = both-Outcome Apart (host.ip c s) (laws.ip_apart c s e p)

  quietly-Keeps : (c : Command) → is_flip c ≡ false → Keeps Apart (quietly host c)
  quietly-Keeps c e s p = laws.ip_apart c s e p

  pub each-Keeps :
      {A : Type 0} (P : S → Type 0) (f : A → S → Bool × S)
      → ((a : A) → Keeps P (f a))
      → (l : List A) → Keeps P (each host f l)
  each-Keeps P f k [] s p = p
  each-Keeps P f k (a ∷ l) s p =
      then-Outcome P P P (f a s) (each host f l) (k a s p) (each-Keeps P f k l)

  quiet_if-Keeps : (b : Bool) (c : Command) → is_flip c ≡ false → Keeps Apart (quiet_if host b c)
  quiet_if-Keeps true c e s p = laws.ip_apart c s e p
  quiet_if-Keeps false c e s p = p

  in_order-Keeps :
      (P : S → Type 0) (steps : List (S → Bool × S))
      → All (Keeps P) steps
      → Keeps P (in_order host steps)
  in_order-Keeps P [] k s p = p
  in_order-Keeps P (step ∷ rest) (k, ks) s p =
      then-Outcome P P P (step s) (in_order host rest) (k s p) (in_order-Keeps P rest ks)

  ensure_tun-Keeps : Keeps Apart (ensure_tun host)
  ensure_tun-Keeps =
      in_order-Keeps Apart
        ((λ s. quiet_if host (not (host.tun_exists s)) add_tun s)
          ∷ quietly host address_tun
          ∷ host.ip tun_up
          ∷ [])
        (
          (λ s p. quiet_if-Keeps (not (host.tun_exists s)) add_tun refl s p),
          (quietly-Keeps address_tun refl, (ip-Keeps tun_up refl, tt)),
        )

  install_dns-Keeps : Keeps Apart (install_dns_policy_route host)
  install_dns-Keeps =
      in_order-Keeps Apart
        (host.ip dns_route ∷ quietly host dns_rule_del ∷ host.ip dns_rule_add ∷ [])
        (
          ip-Keeps dns_route refl,
          (quietly-Keeps dns_rule_del refl, (ip-Keeps dns_rule_add refl, tt)),
        )

  rp_filter-Keeps : Keeps Apart (set_rp_filter_loose host)
  rp_filter-Keeps s p =
      both-Outcome Apart (set_rp_filter_loose host s)
        (laws.file_apart _ _ _ (laws.state_apart _ _ s p))

  add_rule-Keeps : (six : Bool) (mark : Mark) → Keeps Apart (add_rule_fwmark host six mark)
  add_rule-Keeps six mark =
      in_order-Keeps Apart
        (quietly host (mark_rule_del six mark) ∷ host.ip (mark_rule_add six mark) ∷ [])
        (quietly-Keeps (mark_rule_del six mark) refl, (ip-Keeps (mark_rule_add six mark) refl, tt))

  pub lay_bypass_table-Keeps : (d : Default) → Keeps Apart (lay_bypass_table host d)
  lay_bypass_table-Keeps d =
      in_order-Keeps Apart
        (ensure_tun host
          ∷ install_dns_policy_route host
          ∷ set_rp_filter_loose host
          ∷ host.ip (physical_default d)
          ∷ each host (λ net. host.ip (throw net)) throws
          ∷ add_rule_fwmark host false xray_dial
          ∷ add_rule_fwmark host false bypass
          ∷ [])
        (
          ensure_tun-Keeps,
          (
            install_dns-Keeps,
            (
              rp_filter-Keeps,
              (
                ip-Keeps (physical_default d) refl,
                (
                  each-Keeps Apart (λ net. host.ip (throw net)) (λ net. ip-Keeps (throw net) refl)
                      throws,
                  (add_rule-Keeps false xray_dial, (add_rule-Keeps false bypass, tt)),
                ),
              ),
            ),
          ),
        )

  pub lay_bypass_table6-Keeps : (d : Option Default6) → Keeps Apart (lay_bypass_table6 host d)
  lay_bypass_table6-Keeps none = in_order-Keeps Apart [] tt
  lay_bypass_table6-Keeps (some d) =
      in_order-Keeps Apart
        (host.ip (physical_default6 d)
          ∷ each host (λ net. host.ip (throw6 net)) throws6
          ∷ add_rule_fwmark host true xray_dial
          ∷ add_rule_fwmark host true bypass
          ∷ [])
        (
          ip-Keeps (physical_default6 d) refl,
          (
            each-Keeps Apart (λ net. host.ip (throw6 net)) (λ net. ip-Keeps (throw6 net) refl)
                throws6,
            (add_rule-Keeps true xray_dial, (add_rule-Keeps true bypass, tt)),
          ),
        )
