-- ===== src/Convert/Balance.antt =====
-- Counting the ids that are open.
use tes_0mq.Base.{ℕ, ◌+◌, refl, ◌∙◌, arith}
use tes_0mq.Convert.Calls.{View, More, Closed}

module _ {S : Type 0} (V : View S) where
  pub More-refl : (s : S) → More V 0 s s
  More-refl s = record { ids = omega arith; fds = refl; maps = refl; errors = refl }

  pub More-then : {a b : ℕ} (s s' s'' : S) → More V a s s' → More V b s' s'' → More V (a + b) s s''
  More-then s s' s'' m n = record {
    ids = omega (arith, m.ids, n.ids);
    fds = n.fds ∙ m.fds;
    maps = n.maps ∙ m.maps;
    errors = n.errors ∙ m.errors;
  }

  -- The same with no more, and with one less.
  pub More-still : {a : ℕ} (s s' s'' : S) → More V a s s' → More V 0 s' s'' → More V a s s''
  More-still s s' s'' m n = record {
    ids = omega (arith, m.ids, n.ids);
    fds = n.fds ∙ m.fds;
    maps = n.maps ∙ m.maps;
    errors = n.errors ∙ m.errors;
  }

  pub More-Closed : {a : ℕ} (s s' s'' : S) → More V (a + 1) s s' → Closed V s' s'' → More V a s s''
  More-Closed s s' s'' m c = record {
    ids = omega (arith, m.ids, c.ids (omega (arith, m.ids)));
    fds = c.fds ∙ m.fds;
    maps = c.maps ∙ m.maps;
    errors = c.errors ∙ m.errors;
  }
