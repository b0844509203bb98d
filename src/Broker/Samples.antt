-- ===== src/Broker/Samples.antt =====
-- Two providers: one is rate-limited once and then answers, the other is refused.
use shelldon.Base.{
  ℕ, zero, suc, Option, none, some, Bool, true, false, List, [], ◌∷◌, ◌++◌, ◌≡◌, refl, inl, inr,
  any_pass, if◌then◌else◌,
}
use shelldon.Base.Result.{Result, ok}
use shelldon.Base.Text.{Text, codes, text_eq}
use shelldon.Broker.{
  Job, Outcome, returned, transient, permanent, Provider, answer, ask, handle_job, handle_job_chain,
  build_chain,
}
use shelldon.Broker.Fallback.{handle_job_chain-Fails}

abbrev job : Job Unit
job = record { payload = codes "hello"; tools = []; messages = [] }

once_limited : ℕ → Outcome Text
once_limited (suc zero) = transient (codes "429")
once_limited n = returned (codes "hi")

abbrev flaky : Provider Unit
flaky = record {
  name = codes "glm";
  complete = λ n t. once_limited n;
  complete_with_tools = λ n ms ts. permanent (codes "no tools");
}

abbrev refused : Provider Unit
refused = record {
  name = codes "groq";
  complete = λ n t. permanent (codes "401");
  complete_with_tools = λ n ms ts. permanent (codes "401");
}

refused_fails : (handle_job job refused).is_ok ≡ false
unfolding handle_job ask
refused_fails = refl

flaky_answers : (handle_job job flaky).is_ok ≡ true
unfolding handle_job ask once_limited answer
flaky_answers = refl

handle_job_chain-Fails_example :
    handle_job_chain job (refused ∷ flaky ∷ refused ∷ []) ≡ handle_job job flaky
handle_job_chain-Fails_example =
    handle_job_chain-Fails job (refused ∷ []) flaky (refused ∷ []) (refused_fails, tt)
      (inl flaky_answers)

abbrev presets : Text → Option (Unit {0} → Result ℕ)
presets n =
    if text_eq n (codes "glm")
    then some (λ e. ok 1)
    else if text_eq n (codes "groq")
    then some (λ e. ok 2)
    else none

abbrev listed : Text
listed = codes "glm, groq,,glm"

listed_chain : build_chain presets (λ t. t) listed tt ≡ ok (1 ∷ 2 ∷ [])
unfolding build_chain shelldon.Base.Text.is_space text_eq
listed_chain = refl
