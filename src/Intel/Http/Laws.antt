-- ===== src/Intel/Http/Laws.antt =====
-- What the classification of a GET promises its callers (native/threat_intel/http_client.py).
use swarm_kill_chain_medium.Prelude.{
  ◌≡◌, ◌⊎◌, inl, inr, refl, true, false, ◌||◌, Option, none, some, ◌==◌, ==_iff, by_if,
}
use swarm_kill_chain_medium.Prelude.Text.{Bytes}
use swarm_kill_chain_medium.Json.{Json, Python}
use swarm_kill_chain_medium.Intel.Http.{
  status_ok, status_not_found, status_rate_limited, Opened, answered, http_error, unreachable,
  Fetched, is_null, try_json, get_json,
}

-- What a caller may rely on.
pub record IsClassified (f : Fetched) : Type 0 where
  pub delayed :
      (f.retry_after ≡ none) ⊎ ((f.http_status ≡ some 429) × (f.status ≡ status_rate_limited))
  pub limited : f.status ≡ status_rate_limited → f.http_status ≡ some 429
  pub with_data : (is_null f.parsed ≡ true) ⊎ (f.status ≡ status_ok) ⊎ (f.status ≡ status_not_found)
  pub succeeded : f.status ≡ status_ok → is_null f.parsed ≡ false

module _ (python : Python) (json_of : Bytes → Option Json) where
  -- However the network behaves: a delay is given only with a refusal by status 429, a status
  -- `rate_limited` only for such a refusal, data only with a success or a 404, and a success has data.
  pub get_json-IsClassified : (opened : Opened) → IsClassified (get_json python json_of opened)
  unfolding get_json
  get_json-IsClassified (answered code body) =
      by_if IsClassified (is_null (try_json python json_of body))
        (λ e. record {
          delayed = inl refl;
          limited = λ h. absurd (cc);
          with_data = inl refl;
          succeeded = λ h. absurd (cc);
        })
        (λ e. record {
          delayed = inl refl;
          limited = λ h. absurd (cc);
          with_data = inr (inl refl);
          succeeded = λ h. e;
        })
  get_json-IsClassified (http_error code body header) =
      by_if IsClassified (code == 404)
        (λ e. record {
          delayed = inl refl;
          limited = λ h. absurd (cc);
          with_data = inr (inr refl);
          succeeded = λ h. absurd (cc);
        })
        (λ e.
          by_if IsClassified ((code == 401) || (code == 403))
            (λ f. record {
              delayed = inl refl;
              limited = λ h. absurd (cc);
              with_data = inl refl;
              succeeded = λ h. absurd (cc);
            })
            (λ f.
              by_if IsClassified (code == 429)
                (λ g.
                  let at : code ≡ 429 = (==_iff code 429).0 g in
                  record {
                    delayed = inr (rw at refl, refl);
                    limited = λ h. rw at refl;
                    with_data = inl refl;
                    succeeded = λ h. absurd (cc);
                  })
                (λ g. record {
                  delayed = inl refl;
                  limited = λ h. absurd (cc);
                  with_data = inl refl;
                  succeeded = λ h. absurd (cc);
                })))
  get_json-IsClassified unreachable = record {
    delayed = inl refl;
    limited = λ h. absurd (cc);
    with_data = inl refl;
    succeeded = λ h. absurd (cc);
  }
