-- ===== src/Respondent/Replies.antt =====
-- internal/respondent/coach.go: the fixed sentences of the coach, none of which repeats the answer.
use Prim.Native.String.{String}
use conclution_ai_teacher.Prelude.{Bool, true, false, if◌then◌else◌}
use conclution_ai_teacher.Respondent.Contracts.{
  Operator, boolean, choice, quantity, state, cause, purpose, procedure, definition, comparison,
  evidence,
}

pub gentle_reask_prompt : Operator → String
gentle_reask_prompt operator = "そこまでちゃんと聞こえています。今の言葉は変えず、答えになっている一文から続けても大丈夫です。"

pub core_prompt : Operator → String
core_prompt boolean = "ひとつだけ、するのかしないのかなら、どちらですか？"
core_prompt choice = "ひとつだけ選ぶなら、どれですか？"
core_prompt quantity = "数字と単位だけなら、いくつですか？"
core_prompt state = "今どうなっているか、一言だけなら？"
core_prompt cause = "いちばん大きな理由を一つだけ挙げるなら？"
core_prompt purpose = "いちばん実現したいことを一つだけ挙げるなら？"
core_prompt procedure = "最初の一歩だけ挙げるなら、何をしますか？"
core_prompt definition = "それが何か、一言だけなら？"
core_prompt comparison = "いちばん大きな違いを一つだけ挙げるなら？"
core_prompt evidence = "いちばん確かな根拠を一つだけ挙げるなら？"
core_prompt _ = "いちばん言いたいことを、一言だけなら？"

pub expansion_prompt : Operator → String
expansion_prompt evidence = "今は聞かれたことへ先に答えられています。次に、『その根拠は』に続けて、一つだけ言うと？"
expansion_prompt state = "今は聞かれたことへ先に答えられています。次に、『その最初の一歩は』に続けて、一つだけ言うと？"
expansion_prompt _ = "今は聞かれたことへ先に答えられています。次に、『その理由は』に続けて、一つだけ言うと？"

unfoldable pub expansion_operator : Operator → Operator
expansion_operator definition = evidence
expansion_operator quantity = evidence
expansion_operator comparison = evidence
expansion_operator evidence = evidence
expansion_operator procedure = state
expansion_operator _ = cause

pub completion_reply : Bool → String
completion_reply true = "うん、そのままで大丈夫です。"
completion_reply false = "うん、なるほど。"

operator_reply : Operator → String
operator_reply boolean = "うん、そちらなんですね。"
operator_reply choice = "うん、そちらなんですね。"
operator_reply quantity = "なるほど、そのくらいなんですね。"
operator_reply state = "なるほど、今はそうなんですね。"
operator_reply cause = "なるほど、そう考えているんですね。"
operator_reply purpose = "なるほど、そう考えているんですね。"
operator_reply procedure = "なるほど、そこから始めるんですね。"
operator_reply definition = "なるほど、そう捉えているんですね。"
operator_reply comparison = "なるほど、そこが判断の軸なんですね。"
operator_reply evidence = "なるほど、そこが判断の軸なんですね。"
operator_reply _ = "うん、なるほど。"

pub natural_continuation_reply : Operator → Bool → String
unfolding operator_reply
natural_continuation_reply operator abstained =
    if abstained then "うん、まだ決めていなくても大丈夫です。" else operator_reply operator

pub late_answer_continuation_reply : String
late_answer_continuation_reply = "うん、答えは聞こえました。次は今の答えを最初に置くと、もっと伝わりやすいです。そのままで大丈夫です。"
