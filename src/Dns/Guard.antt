-- ===== src/Dns/Guard.antt =====
-- The DNS guard is in place only where the probe through the tunnel was answered.
use varmlen_cli_linux.Common.{◌≡◌, ◌⊎◌, true}
use varmlen_cli_linux.Common.Outcome.{Result, ok, err}
use varmlen_cli_linux.Protocol.{DaemonError}
use varmlen_cli_linux.Dns.{DnsBackend}

-- What the steps of a backend promise: `Absent` is that no table of the guard is there.
pub record GuardLaws {S : Type 0} (backend : DnsBackend S) (Absent Verified : S → Type 0)
    : Type 0 where
  -- A transaction of nft is made whole or not at all.
  pub applies :
      (s : S) (e : DaemonError)
      → Absent s
      → (backend.apply s).0 ≡ err e
      → Absent (backend.apply s).1
  pub verifies :
      (s : S)
      → (backend.probe_through_tunnel s).0 ≡ ok true
      → Verified (backend.probe_through_tunnel s).1
  pub removes : (s : S) → (backend.remove s).0 ≡ ok tt → Absent (backend.remove s).1

module _ {S : Type 0} (backend : DnsBackend S) (Absent Verified : S → Type 0) where
  -- How a guard can end: verified; refused with nothing left; or refused where the removal failed.
  abbrev pub IsSettled : Result DaemonError (Unit {0}) × S → Type 0
  IsSettled (ok u, s) = Verified s
  IsSettled (err e, s) =
      Absent s
      ⊎ ((before : S) × (failure : DaemonError) × (backend.remove before ≡ (err failure, s)))
