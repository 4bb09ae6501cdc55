-- ===== src/Dns/Names.antt =====
-- The functions of miekg/dns on domain names: a parameter, and what the program relies on.
use cursedns.Prelude.{String, Bool, true, ◌≡◌, equal_fold}

pub record Names : Type 0 where
  -- `dns.Fqdn`
  pub fqdn : String → String
  -- `dns.IsSubDomain(parent, child)`
  pub is_sub_domain : String → String → Bool

-- A name is below itself, "below" is transitive, letters compare in any case, and all is below the
-- root.
pub record IsNames (d : Names) : Type 0 where
  pub sub_refl : (n : String) → d.is_sub_domain n n ≡ true
  pub sub_trans :
      (p n c : String)
      → d.is_sub_domain p n ≡ true
      → d.is_sub_domain n c ≡ true
      → d.is_sub_domain p c ≡ true
  pub sub_fold :
      (p m n : String)
      → equal_fold m n ≡ true
      → d.is_sub_domain p m ≡ true
      → d.is_sub_domain p n ≡ true
  pub sub_root : (n : String) → d.is_sub_domain "." n ≡ true
