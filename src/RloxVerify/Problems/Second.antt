-- ===== src/RloxVerify/Problems/Second.antt =====
-- environments/rlox_verify/rlox_verify/__init__.py: rows 11 to 20 of `_FALLBACK_PROBLEMS`.
use mathlib.Core.List.{List, [], ◌∷◌}
use rlox.RloxVerify.Problems.Rows.{Row, row}

abbrev pub second_problems : List Row
second_problems =
    row
      "Write a Python function `rotate_list(lst, k)` that rotates the list to the right by k positions."
      ""
      "assert rotate_list([1, 2, 3, 4, 5], 2) == [4, 5, 1, 2, 3]\nassert rotate_list([1, 2, 3], 0) == [1, 2, 3]\nassert rotate_list([1, 2, 3], 3) == [1, 2, 3]\nassert rotate_list([1], 5) == [1]\n"
    ∷ row
        "Write a Python function `word_count(sentence)` that returns a dict mapping each word (case-insensitive, split on whitespace) to its count of occurrences."
        ""
        "assert word_count('hello world') == {'hello': 1, 'world': 1}\nassert word_count('the cat sat on the mat') == {'the': 2, 'cat': 1, 'sat': 1, 'on': 1, 'mat': 1}\nassert word_count('') == {}\n"
    ∷ row
        "Write a Python function `common_elements(a, b)` that returns a sorted list of elements that appear in both lists a and b (no duplicates)."
        ""
        "assert common_elements([1, 2, 3], [2, 3, 4]) == [2, 3]\nassert common_elements([1, 2, 2, 3], [2, 2, 4]) == [2]\nassert common_elements([], [1, 2]) == []\nassert common_elements([5, 6], [5, 6]) == [5, 6]\n"
    ∷ row
        "Write a Python function `matrix_transpose(matrix)` that returns the transpose of a 2D list (list of lists). All rows are the same length."
        ""
        "assert matrix_transpose([[1, 2, 3], [4, 5, 6]]) == [[1, 4], [2, 5], [3, 6]]\nassert matrix_transpose([[1]]) == [[1]]\nassert matrix_transpose([[1, 2], [3, 4]]) == [[1, 3], [2, 4]]\n"
    ∷ row
        "Write a Python function `longest_common_prefix(strs)` that returns the longest common prefix string amongst a list of strings. Return an empty string if no common prefix exists."
        ""
        "assert longest_common_prefix(['flower', 'flow', 'flight']) == 'fl'\nassert longest_common_prefix(['dog', 'racecar', 'car']) == ''\nassert longest_common_prefix(['interview', 'interact', 'interface']) == 'inter'\nassert longest_common_prefix(['abc']) == 'abc'\n"
    ∷ row
        "Write a Python function `running_sum(nums)` that returns a list where each element is the running (cumulative) sum of the original list."
        ""
        "assert running_sum([1, 2, 3, 4]) == [1, 3, 6, 10]\nassert running_sum([1]) == [1]\nassert running_sum([3, 1, 2, 10, 1]) == [3, 4, 6, 16, 17]\n"
    ∷ row
        "Write a Python function `remove_duplicates(lst)` that returns a new list with duplicates removed, preserving the original order of first appearances."
        ""
        "assert remove_duplicates([1, 2, 2, 3, 1]) == [1, 2, 3]\nassert remove_duplicates([]) == []\nassert remove_duplicates([5, 5, 5]) == [5]\nassert remove_duplicates([1, 2, 3]) == [1, 2, 3]\n"
    ∷ row
        "Write a Python function `chunk_list(lst, n)` that splits lst into consecutive chunks of size n. The last chunk may be smaller."
        ""
        "assert chunk_list([1, 2, 3, 4, 5], 2) == [[1, 2], [3, 4], [5]]\nassert chunk_list([1, 2, 3], 3) == [[1, 2, 3]]\nassert chunk_list([], 3) == []\nassert chunk_list([1, 2, 3, 4], 2) == [[1, 2], [3, 4]]\n"
    ∷ row
        "Write a Python function `count_pairs(nums, target)` that returns the number of pairs (i, j) with i < j such that nums[i] + nums[j] == target."
        ""
        "assert count_pairs([1, 2, 3, 4], 5) == 2\nassert count_pairs([1, 1, 1], 2) == 3\nassert count_pairs([1, 2, 3], 10) == 0\nassert count_pairs([], 0) == 0\n"
    ∷ row
        "Write a Python function `most_frequent(lst)` that returns the element that appears most frequently in the list. If there is a tie, return the one that appears first in the list."
        ""
        "assert most_frequent([1, 2, 2, 3, 3, 3]) == 3\nassert most_frequent(['a', 'b', 'a']) == 'a'\nassert most_frequent([1]) == 1\nassert most_frequent([3, 1, 3, 2, 1]) == 3\n"
    ∷ []
