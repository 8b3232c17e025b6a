-- ===== src/Id/Refs.antt =====
-- spectator/common_refs.h: the texts of the references that the daemon shares.
use spectatord.Tags.{StrRef}
use spectatord.CText.{chars}

abbrev pub name : StrRef
name = chars "name"

abbrev pub count : StrRef
count = chars "count"

abbrev pub gauge : StrRef
gauge = chars "gauge"

abbrev pub total_time : StrRef
total_time = chars "totalTime"

abbrev pub total_amount : StrRef
total_amount = chars "totalAmount"

abbrev pub total_of_squares : StrRef
total_of_squares = chars "totalOfSquares"

abbrev pub percentile : StrRef
percentile = chars "percentile"

abbrev pub max : StrRef
max = chars "max"

abbrev pub statistic : StrRef
statistic = chars "statistic"
