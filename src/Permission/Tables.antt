-- ===== src/Permission/Tables.antt =====
-- The tables of efp_opencode_adapter/permission_generator.py.
use engineering_flow_platfor.Base.{
  String, Bool, List, [], ◌∷◌, if◌then◌else◌, nat_eq, string_eq, pair_eq, Dict, insert,
}

-- a rule of the configuration: one word, or a word for each pattern
pub data Rule : Type 0 where
  plain : String → Rule
  patterns : Dict String String → Rule

abbrev pub atlassian_bash : Dict String String
atlassian_bash =
    ("jira commands*", "allow")
    ∷ ("jira schema*", "allow")
    ∷ ("jira version*", "allow")
    ∷ ("jira auth test*", "allow")
    ∷ ("jira instance list*", "allow")
    ∷ ("jira instance get*", "allow")
    ∷ ("jira resolve-url*", "allow")
    ∷ ("jira field list*", "allow")
    ∷ ("jira issue get*", "allow")
    ∷ ("jira issue search*", "allow")
    ∷ ("jira issue createmeta*", "allow")
    ∷ ("jira issue editmeta*", "allow")
    ∷ ("jira issue map-csv*", "allow")
    ∷ ("jira issue bulk-validate*", "allow")
    ∷ ("jira issue bulk-create *--dry-run*", "allow")
    ∷ ("jira *", "ask")
    ∷ ("confluence commands*", "allow")
    ∷ ("confluence schema*", "allow")
    ∷ ("confluence version*", "allow")
    ∷ ("confluence auth test*", "allow")
    ∷ ("confluence instance list*", "allow")
    ∷ ("confluence instance get*", "allow")
    ∷ ("confluence resolve-url*", "allow")
    ∷ ("confluence search*", "allow")
    ∷ ("confluence cql*", "allow")
    ∷ ("confluence page get*", "allow")
    ∷ ("confluence page body*", "allow")
    ∷ ("confluence space get*", "allow")
    ∷ ("confluence space list*", "allow")
    ∷ ("confluence *", "ask")
    ∷ []

abbrev pub mobile_bash : Dict String String
mobile_bash =
    ("mobile-auto commands*", "allow")
    ∷ ("mobile-auto schema*", "allow")
    ∷ ("mobile-auto version*", "allow")
    ∷ ("mobile-auto doctor*", "allow")
    ∷ ("mobile-auto auth test*", "allow")
    ∷ ("mobile-auto device list*", "allow")
    ∷ ("mobile-auto device resolve*", "allow")
    ∷ ("mobile-auto app resolve*", "allow")
    ∷ ("mobile-auto run status*", "allow")
    ∷ ("mobile-auto observe*", "allow")
    ∷ ("mobile-auto locate*", "allow")
    ∷ ("mobile-auto assert*", "allow")
    ∷ ("mobile-auto report*", "allow")
    ∷ ("mobile-auto *", "ask")
    ∷ []

abbrev pub java_maven_bash : Dict String String
java_maven_bash =
    ("java", "allow")
    ∷ ("java *", "allow")
    ∷ ("javac", "allow")
    ∷ ("javac *", "allow")
    ∷ ("jar", "allow")
    ∷ ("jar *", "allow")
    ∷ ("javadoc", "allow")
    ∷ ("javadoc *", "allow")
    ∷ ("jshell", "allow")
    ∷ ("jshell *", "allow")
    ∷ ("keytool", "allow")
    ∷ ("keytool *", "allow")
    ∷ ("jarsigner", "allow")
    ∷ ("jarsigner *", "allow")
    ∷ ("jcmd", "allow")
    ∷ ("jcmd *", "allow")
    ∷ ("jconsole", "allow")
    ∷ ("jconsole *", "allow")
    ∷ ("jdb", "allow")
    ∷ ("jdb *", "allow")
    ∷ ("jdeprscan", "allow")
    ∷ ("jdeprscan *", "allow")
    ∷ ("jdeps", "allow")
    ∷ ("jdeps *", "allow")
    ∷ ("jfr", "allow")
    ∷ ("jfr *", "allow")
    ∷ ("jhsdb", "allow")
    ∷ ("jhsdb *", "allow")
    ∷ ("jimage", "allow")
    ∷ ("jimage *", "allow")
    ∷ ("jinfo", "allow")
    ∷ ("jinfo *", "allow")
    ∷ ("jlink", "allow")
    ∷ ("jlink *", "allow")
    ∷ ("jmap", "allow")
    ∷ ("jmap *", "allow")
    ∷ ("jmod", "allow")
    ∷ ("jmod *", "allow")
    ∷ ("jpackage", "allow")
    ∷ ("jpackage *", "allow")
    ∷ ("jps", "allow")
    ∷ ("jps *", "allow")
    ∷ ("jrunscript", "allow")
    ∷ ("jrunscript *", "allow")
    ∷ ("jstack", "allow")
    ∷ ("jstack *", "allow")
    ∷ ("jstat", "allow")
    ∷ ("jstat *", "allow")
    ∷ ("jstatd", "allow")
    ∷ ("jstatd *", "allow")
    ∷ ("serialver", "allow")
    ∷ ("serialver *", "allow")
    ∷ ("jdk", "allow")
    ∷ ("jdk *", "allow")
    ∷ ("mvn", "allow")
    ∷ ("mvn *", "allow")
    ∷ ("mvn-jdk", "allow")
    ∷ ("mvn-jdk *", "allow")
    ∷ ("./mvnw", "allow")
    ∷ ("./mvnw *", "allow")
    ∷ ("mvnw", "allow")
    ∷ ("mvnw *", "allow")
    ∷ ("bash ./mvnw *", "allow")
    ∷ ("sh ./mvnw *", "allow")
    ∷ ("chmod +x ./mvnw", "allow")
    ∷ []

abbrev pub aws_bash : Dict String String
aws_bash =
    ("aws-auth *", "allow")
    ∷ ("aws sts get-caller-identity*", "allow")
    ∷ ("aws eks list-clusters*", "allow")
    ∷ ("aws eks describe-cluster*", "allow")
    ∷ ("aws eks list-nodegroups*", "allow")
    ∷ ("aws eks describe-nodegroup*", "allow")
    ∷ ("aws ecr describe-*", "allow")
    ∷ ("aws ecr list-images*", "allow")
    ∷ ("aws ecr batch-get-image*", "allow")
    ∷ ("aws logs describe-*", "allow")
    ∷ ("aws logs filter-log-events*", "allow")
    ∷ ("aws logs get-log-events*", "allow")
    ∷ ("aws ec2 describe-*", "allow")
    ∷ ("aws autoscaling describe-*", "allow")
    ∷ ("aws cloudwatch get-metric-*", "allow")
    ∷ ("aws cloudwatch describe-*", "allow")
    ∷ ("aws *", "ask")
    ∷ ("kubectl get secret*", "ask")
    ∷ ("kubectl get *", "allow")
    ∷ ("kubectl describe secret*", "ask")
    ∷ ("kubectl describe *", "allow")
    ∷ ("kubectl logs *", "allow")
    ∷ ("kubectl top *", "allow")
    ∷ ("kubectl explain *", "allow")
    ∷ ("kubectl api-resources*", "allow")
    ∷ ("kubectl api-versions*", "allow")
    ∷ ("kubectl version*", "allow")
    ∷ ("kubectl auth can-i *", "allow")
    ∷ ("kubectl config get-contexts*", "allow")
    ∷ ("kubectl config current-context*", "allow")
    ∷ ("kubectl config view*", "allow")
    ∷ ("kubectl cluster-info*", "allow")
    ∷ ("kubectl *", "ask")
    ∷ []

abbrev pub git_bash : Dict String String
git_bash =
    ("git *", "allow")
    ∷ ("gh *", "allow")
    ∷ ("git status*", "allow")
    ∷ ("git diff*", "allow")
    ∷ ("git log*", "allow")
    ∷ []

abbrev pub builtin_permission_aliases : Dict String (List String)
builtin_permission_aliases =
    ("read", "read" ∷ "opencode.builtin.read" ∷ [])
    ∷ ("glob", "glob" ∷ "opencode.builtin.glob" ∷ [])
    ∷ ("grep", "grep" ∷ "opencode.builtin.grep" ∷ [])
    ∷ ("edit", "edit" ∷ "opencode.builtin.edit" ∷ [])
    ∷ ("write", "write" ∷ "opencode.builtin.write" ∷ [])
    ∷ ("bash", "bash" ∷ "opencode.builtin.bash" ∷ [])
    ∷ ("todowrite", "todowrite" ∷ "opencode.builtin.todowrite" ∷ [])
    ∷ ("webfetch", "webfetch" ∷ "opencode.builtin.webfetch" ∷ [])
    ∷ ("websearch", "websearch" ∷ "opencode.builtin.websearch" ∷ [])
    ∷ ("question", "question" ∷ "opencode.builtin.question" ∷ [])
    ∷ ("skill", "skill" ∷ "opencode.builtin.skill" ∷ [])
    ∷ []

-- `d.update(e)`
abbrev pub update : Dict String String → Dict String String → Dict String String
update [] d = d
update ((k, v) ∷ e) d = update e (insert k v d)

unfoldable pub bash_rules : Dict String String
unfolding insert
bash_rules =
    insert "*" "ask" (
      update aws_bash
        (update mobile_bash (update atlassian_bash (update java_maven_bash git_bash))))

abbrev pub Permission : Type 0
Permission = Dict String Rule

abbrev pub profile_policy_permission_baseline : Permission
profile_policy_permission_baseline =
    ("*", plain "ask")
    ∷ ("read", plain "allow")
    ∷ ("glob", plain "allow")
    ∷ ("grep", plain "allow")
    ∷ ("edit", plain "ask")
    ∷ ("write", plain "ask")
    ∷ ("bash", patterns bash_rules)
    ∷ ("external_directory", plain "allow")
    ∷ ("webfetch", plain "ask")
    ∷ ("websearch", plain "ask")
    ∷ ("todowrite", plain "ask")
    ∷ ("question", plain "ask")
    ∷ ("skill", patterns (("*", "allow") ∷ []))
    ∷ []

abbrev pub workspace_full_access_permission_baseline : Bool → Permission
workspace_full_access_permission_baseline allow_bash_all =
    ("*", plain "allow")
    ∷ ("read", plain "allow")
    ∷ ("glob", plain "allow")
    ∷ ("grep", plain "allow")
    ∷ ("edit", plain "allow")
    ∷ ("write", plain "allow")
    ∷ ("bash", patterns (("*", if allow_bash_all then "allow" else "ask") ∷ []))
    ∷ ("external_directory", plain "allow")
    ∷ ("webfetch", plain "allow")
    ∷ ("websearch", plain "allow")
    ∷ ("todowrite", plain "allow")
    ∷ ("question", plain "allow")
    ∷ ("skill", patterns (("*", "allow") ∷ []))
    ∷ []
