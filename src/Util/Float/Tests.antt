-- ===== src/Util/Float/Tests.antt =====
-- Runs of the amount conversions, with the values that Go gives.
use go_bank.Common.{List, [], ◌∷◌, ◌≡◌, refl, map}
use go_bank.Common.Int.{pos, negsuc, min_int64}
use go_bank.Util.Float.{Float64, float_to_cents, cents_to_float}

abbrev amounts : List Float64
amounts =
    4622100592565682176 ∷ 4599075939470750516 ∷ 4607204936798154260 ∷ 4598805723493108285
    ∷ 4562254508917369340 ∷ 4572414629676717179 ∷ 13837884064048338698 ∷ 1 ∷ 4815609009554723964
    ∷ 4860645005828428922 ∷ 9094988921128908188 ∷ 9223372036854775808 ∷ 4579800533065604792
    ∷ 4728057454355546112 ∷ 13845472629420457984 ∷ []

float_to_cents_runs :
    map (float_to_cents (λ _. min_int64)) amounts
    ≡ (pos 1050)
      ∷ (pos 30)
      ∷ (pos 100)
      ∷ (pos 28)
      ∷ (pos 0)
      ∷ (pos 1)
      ∷ (negsuc 325)
      ∷ (pos 0)
      ∷ (pos 9007199254740994)
      ∷ (pos 9223372036854774784)
      ∷ min_int64
      ∷ (pos 0)
      ∷ (pos 2)
      ∷ (pos 12345678913)
      ∷ (negsuc 1049)
      ∷ []
unfolding float_to_cents
float_to_cents_runs = refl

cents_to_float_runs :
    map cents_to_float (
      (pos 1050)
      ∷ (pos 1)
      ∷ (pos 0)
      ∷ (negsuc 324)
      ∷ (pos 3333)
      ∷ (pos 9007199254740993)
      ∷ (pos 9223372036854775807)
      ∷ (negsuc 9223372036854775807)
      ∷ (pos 999999999999999)
      ∷ (pos 7)
      ∷ (pos 28)
      ∷ [])
    ≡ 4622100592565682176 ∷ 4576918229304087675 ∷ 0 ∷ 13837872805049270272 ∷ 4629887597796382474
      ∷ 4815609009554723963 ∷ 4860645005828428923 ∷ 14084017042683204731 ∷ 4801453603149578235
      ∷ 4589708452245819884 ∷ 4598715651500560876 ∷ []
unfolding cents_to_float
cents_to_float_runs = refl
