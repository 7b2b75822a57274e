-- ===== src/RloxVerify/Problems/Third.antt =====
-- environments/rlox_verify/rlox_verify/__init__.py: rows 21 to 30 of `_FALLBACK_PROBLEMS`.
use mathlib.Core.List.{List, [], ◌∷◌}
use rlox.RloxVerify.Problems.Rows.{Row, row}

abbrev pub third_problems : List Row
third_problems =
    row
      "Write a Python function `merge_sorted(a, b)` that merges two sorted lists a and b into a single sorted list."
      ""
      "assert merge_sorted([1, 3, 5], [2, 4, 6]) == [1, 2, 3, 4, 5, 6]\nassert merge_sorted([], [1, 2]) == [1, 2]\nassert merge_sorted([1, 2], []) == [1, 2]\nassert merge_sorted([1, 1, 2], [1, 3]) == [1, 1, 1, 2, 3]\n"
    ∷ row
        "Write a Python function `find_missing(nums)` that finds the single missing integer in a list containing n distinct integers in the range [1, n+1]."
        ""
        "assert find_missing([1, 2, 4, 5]) == 3\nassert find_missing([2]) == 1\nassert find_missing([1, 2, 3, 5]) == 4\nassert find_missing([1]) == 2\n"
    ∷ row
        "Write a Python function `group_anagrams(words)` that groups a list of strings into lists of anagrams. Each group is sorted internally, and the outer list is sorted by the first element of each group."
        ""
        "assert group_anagrams(['eat', 'tea', 'tan', 'ate', 'nat', 'bat']) == [['ate', 'eat', 'tea'], ['bat'], ['nat', 'tan']]\nassert group_anagrams(['']) == [['']]\nassert group_anagrams(['a']) == [['a']]\n"
    ∷ row
        "Write a Python function `product_except_self(nums)` that returns a list where each element is the product of all other elements in nums. Do not use division."
        ""
        "assert product_except_self([1, 2, 3, 4]) == [24, 12, 8, 6]\nassert product_except_self([1, 1, 1, 1]) == [1, 1, 1, 1]\nassert product_except_self([2, 3]) == [3, 2]\n"
    ∷ row
        "Write a Python function `binary_search(arr, target)` that returns the index of target in the sorted list arr, or -1 if not found."
        ""
        "assert binary_search([1, 3, 5, 7, 9], 5) == 2\nassert binary_search([1, 3, 5, 7, 9], 6) == -1\nassert binary_search([1], 1) == 0\nassert binary_search([1, 2, 3, 4, 5], 1) == 0\n"
    ∷ row
        "Write a Python function `first_unique(s)` that returns the first non-repeating character in the string s, or None if all characters repeat."
        ""
        "assert first_unique('leetcode') == 'l'\nassert first_unique('aabb') is None\nassert first_unique('z') == 'z'\nassert first_unique('aabbc') == 'c'\n"
    ∷ row
        "Write a Python function `max_subarray_sum(nums)` that returns the maximum sum of a contiguous subarray (Kadane's algorithm)."
        ""
        "assert max_subarray_sum([-2, 1, -3, 4, -1, 2, 1, -5, 4]) == 6\nassert max_subarray_sum([1]) == 1\nassert max_subarray_sum([-1, -2, -3]) == -1\nassert max_subarray_sum([5, 4, -1, 7, 8]) == 23\n"
    ∷ row
        "Write a Python function `deep_flatten(lst)` that recursively flattens a nested list of arbitrary depth."
        ""
        "assert deep_flatten([1, [2, [3, [4]]], 5]) == [1, 2, 3, 4, 5]\nassert deep_flatten([]) == []\nassert deep_flatten([[1, 2], [3, [4, 5]]]) == [1, 2, 3, 4, 5]\nassert deep_flatten([1]) == [1]\n"
    ∷ row
        "Write a Python function `caesar_cipher(text, shift)` that encodes the string text using a Caesar cipher with the given shift. Preserve case and leave non-alphabetic characters unchanged."
        ""
        "assert caesar_cipher('Hello, World!', 3) == 'Khoor, Zruog!'\nassert caesar_cipher('abc', 1) == 'bcd'\nassert caesar_cipher('xyz', 3) == 'abc'\nassert caesar_cipher('ABC', 26) == 'ABC'\n"
    ∷ row
        "Write a Python function `count_occurrences(text, word)` that returns the number of times word appears in text (case-insensitive, space-delimited)."
        ""
        "assert count_occurrences('the cat sat on the mat', 'the') == 2\nassert count_occurrences('Hello hello HELLO', 'hello') == 3\nassert count_occurrences('foo bar baz', 'qux') == 0\nassert count_occurrences('one', 'one') == 1\n"
    ∷ []
